-- ===== src/Bridge/Forward.antt =====
-- Data frames through the bridge: what the client sealed is what the destination gets, and nothing
-- else gets there.
use lowping.Base.{
  ℕ, ◌≤◌, ◌≡◌, ◌≢◌, inl, inr, refl, true, false, length, some, ok, err, Result-cases, Option-cases,
  if◌then◌else◌, arith,
}
use lowping.Base.Bytes.{Bytes, IsBytes}
use lowping.Base.Int.{ℤ}
use lowping.Base.Dict.{get, insert, get-insert}
use lowping.Crypto.{Suite}
use lowping.Net.{SocketAddr}
use lowping.Protocol.{Header, ProtocolError, IsValid, decode}
use lowping.Protocol.Flags
use lowping.Protocol.Frame.{encrypt_frame, decrypt_frame}
use lowping.Protocol.Frame.Data.{
  decrypt_frame-encrypt_frame, encrypt_frame-decrypt_frame, decode_frame,
}
use lowping.Bridge.{
  SessionKey, key_beq, key_eq, Session, BridgeState, Network, DestWriter, Handled, forwarded,
  forward_data, handle_packet, write_failed,
}

module _ (crypto : Suite) where
  -- A frame that `decrypt_frame` opens under the session's key.
  forward_data_opened :
      (net : Network) (st : BridgeState) (key : SessionKey) (sess : Session) (h : Header)
      (pkt payload : Bytes) (at : ℕ)
      → get key st.sessions ≡ some sess
      → decrypt_frame crypto.aead sess.aead_key pkt ≡ ok (h, payload)
      → forward_data crypto net st key pkt at ≡ (
        (if net.write sess.dest_writer payload
            then ok (sess.dest_writer, payload)
            else err write_failed),
        record st { sessions = insert key (record sess { last_active = at }) st.sessions },
      )
  unfolding forward_data
  forward_data_opened net st key sess h pkt payload at found opened = ground arith

  -- A client's data frame, sealed under the session's key, reaches the session's destination with the
  -- client's very payload, if the network takes the write; and of the whole table only this session's
  -- clock changes.
  pub handle_packet-encrypt_frame :
      (net : Network) (st : BridgeState) (peer : SocketAddr) (sess : Session) (h : Header)
      (payload wire : Bytes) (now : ℤ) (at : ℕ) (other : SessionKey)
      → IsValid h
      → Flags.contains h.flags Flags.syn ≡ false
      → get (record { client_addr = peer; connection_id = h.connection_id }) st.sessions ≡ some sess
      → encrypt_frame crypto.aead sess.aead_key h payload ≡ ok wire
      → net.write sess.dest_writer payload ≡ true
      → let key : SessionKey = record { client_addr = peer; connection_id = h.connection_id } in
        ((handle_packet crypto net st peer wire now at).0 ≡ ok (forwarded sess.dest_writer payload))
        × (get other (handle_packet crypto net st peer wire now at).1.sessions ≡ (
            if key_beq key other
            then some (record sess { last_active = at })
            else get other st.sessions))
  unfolding handle_packet
  handle_packet-encrypt_frame net st peer sess h payload wire now at other v data_frame found sealed
        written =
      let key : SessionKey = record { client_addr = peer; connection_id = h.connection_id } in
      let opened = decrypt_frame-encrypt_frame crypto.aead sess.aead_key h payload wire v sealed in
      let read = decode_frame crypto.aead sess.aead_key h payload wire v sealed in
      let done = forward_data_opened net st key sess h wire payload at found opened in
      let clock = get-insert key other (record sess { last_active = at }) st.sessions in
      rw (read, handle_packet, v.current, data_frame, done, written) (refl, clock)

  -- The path of a datagram that was forwarded.
  forwarded_by :
      (net : Network) (st : BridgeState) (peer : SocketAddr) (pkt payload : Bytes) (w : DestWriter)
      (now : ℤ) (at : ℕ) (h : Header)
      → decode pkt ≡ ok h
      → (handle_packet crypto net st peer pkt now at).0 ≡ ok (forwarded w payload)
      → (forward_data crypto net st
          (record { client_addr = peer; connection_id = h.connection_id })
          pkt
          at).0
        ≡ ok (w, payload)
  unfolding handle_packet
  forwarded_by net st peer pkt payload w now at h read e = ground arith

  opened_by :
      (net : Network) (st : BridgeState) (key : SessionKey) (pkt payload : Bytes) (w : DestWriter)
      (at : ℕ)
      → (forward_data crypto net st key pkt at).0 ≡ ok (w, payload)
      → (sess : Session) × (g : Header) × (get key st.sessions ≡ some sess)
        × (decrypt_frame crypto.aead sess.aead_key pkt ≡ ok (g, payload))
        × (w ≡ sess.dest_writer)
  unfolding forward_data
  opened_by net st key pkt payload w at e = elim (Option-cases (get key st.sessions)) [
    | inl gone ↦ absurd (ground arith)
    | inr (sess, found) ↦ elim (Result-cases (decrypt_frame crypto.aead sess.aead_key pkt)) [
      | inr (x, bad) ↦ absurd (ground arith)
      | inl ((g, p), opened) ↦ (sess, g, found, ground arith, ground arith)
    ]
  ]

  undecodable :
      (net : Network) (st : BridgeState) (peer : SocketAddr) (pkt : Bytes) (now : ℤ) (at : ℕ)
      (x : ProtocolError) (r : Handled)
      → decode pkt ≡ err x
      → (handle_packet crypto net st peer pkt now at).0 ≢ ok r
  unfolding handle_packet
  undecodable net st peer pkt now at x r bad e = ground arith

  -- Whatever the bridge forwards is authentic: the datagram is, byte for byte, the frame that sealing
  -- the forwarded payload under the key of a session gives, that session is the one of the sender's
  -- address and the frame's connection, and the payload goes to its destination. (The payload is not
  -- above the limit of the sender.)
  pub handle_packet-forwarded :
      (net : Network) (st : BridgeState) (peer : SocketAddr) (pkt payload : Bytes) (w : DestWriter)
      (now : ℤ) (at : ℕ)
      → IsBytes pkt
      → length payload ≤ 1200
      → (handle_packet crypto net st peer pkt now at).0 ≡ ok (forwarded w payload)
      → (h : Header) × (sess : Session) × (get
            (record { client_addr = peer; connection_id = h.connection_id })
            st.sessions
          ≡ some sess)
        × (w ≡ sess.dest_writer)
        × (encrypt_frame crypto.aead sess.aead_key h payload ≡ ok pkt)
  handle_packet-forwarded net st peer pkt payload w now at bytes fits e =
      elim (Result-cases (decode pkt)) [
        | inr (x, bad) ↦ absurd (undecodable net st peer pkt now at x (forwarded w payload) bad e)
        | inl (h, read) ↦
            let key : SessionKey = record { client_addr = peer; connection_id = h.connection_id } in
            let done = forwarded_by net st peer pkt payload w now at h read e in
            let (sess, g, found, opened, same) = opened_by net st key pkt payload w at done in
            let (v, sealed) =
              encrypt_frame-decrypt_frame crypto.aead sess.aead_key pkt g payload bytes opened
                fits in
            let again : decode pkt ≡ ok g =
              decode_frame crypto.aead sess.aead_key g payload pkt v sealed in
            let one : g ≡ h = cc in (h, sess, found, same, rw one at sealed)
      ]
