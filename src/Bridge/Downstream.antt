-- ===== src/Bridge/Downstream.antt =====
-- The way back: frames from the bridge to the client.
use lowping.Base.{
  ℕ, ◌+◌, ◌%◌, ◌^◌, ◌≤◌, ◌<◌, ◌≡◌, refl, ◌∙◌, true, length, List, [], ◌∷◌, Option, none, some, ok,
  Result-cases, inl, inr, if◌then◌else◌, arith, All, length-take, Option-cases,
}
use lowping.Base.Bytes.{Bytes}
use lowping.Base.Dict.{get, insert, get-insert}
use lowping.Crypto.{Suite}
use lowping.Protocol.{Header, IsValid}
use lowping.Protocol.Flags
use lowping.Protocol.Frame.{encrypt_frame, decrypt_frame}
use lowping.Protocol.Frame.Data.{decrypt_frame-encrypt_frame}
use lowping.Protocol.Connect.{TransportProtocol, tcp, udp}
use lowping.Bridge.{
  SessionKey, key_beq, key_eq, Session, BridgeState, DownstreamPacket, drain_dest, send_downstream,
  Network, DestWriter, handle_packet, forwarded,
}
use lowping.Bridge.Forward.{handle_packet-encrypt_frame}
use lowping.Net.{SocketAddr}
use lowping.Base.Int.{ℤ}
use lowping.Base.Eq.{beq_refl}

-- Whatever the reads of the destination, each queued payload goes to this session and fits one frame.
pub drain_dest-fits :
    (kind : TransportProtocol) (key : SessionKey) (reads : List (Option Bytes))
    → All (λ p. (p.session_key ≡ key) × (length p.payload ≤ 1200)) (drain_dest kind key reads)
unfolding drain_dest
drain_dest-fits kind key [] = tt
drain_dest-fits kind key (none ∷ reads) = tt
drain_dest-fits tcp key (some [] ∷ reads) = tt
drain_dest-fits tcp key (some (b ∷ bs) ∷ reads) =
    ((refl, omega (arith, length-take 1200 (b ∷ bs))), drain_dest-fits tcp key reads)
drain_dest-fits udp key (some d ∷ reads) =
    ((refl, omega (arith, length-take 1200 d)), drain_dest-fits udp key reads)

-- The header of the next downstream frame.
abbrev pub next_header : SessionKey → Session → Header
next_header key sess = record {
  version = 1;
  flags = Flags.empty;
  connection_id = key.connection_id;
  sequence = (sess.tx_sequence + 1) % 2 ^ 64;
}

next_header-IsValid :
    (key : SessionKey) (sess : Session)
    → key.connection_id < 2 ^ 32
    → IsValid (next_header key sess)
next_header-IsValid key sess h = record {
  current = refl;
  flags_high = refl;
  flags_byte = omega arith;
  id_u32 = h;
  seq_u64 = omega arith;
}

module _ (crypto : Suite) where
  -- A datagram that was sent: from a session of the table, as the frame of its next header.
  pub send_downstream-eq-some :
      (st st' : BridgeState) (pkt : DownstreamPacket) (peer : SocketAddr) (wire : Bytes)
      → send_downstream crypto st pkt ≡ (some (peer, wire), st')
      → (sess : Session) × (get pkt.session_key st.sessions ≡ some sess)
        × (peer ≡ pkt.session_key.client_addr)
        × (encrypt_frame crypto.aead sess.aead_key (next_header pkt.session_key sess) pkt.payload
            ≡ ok wire)
        × (st' ≡ record st {
          sessions =
              insert pkt.session_key
                (record sess { tx_sequence = (sess.tx_sequence + 1) % 2 ^ 64 })
                st.sessions;
        })
  unfolding send_downstream
  send_downstream-eq-some st st' pkt peer wire e =
      elim (Option-cases (get pkt.session_key st.sessions)) [
        | inl gone ↦ absurd (ground arith)
        | inr (sess, found) ↦
            elim (Result-cases (
              encrypt_frame crypto.aead sess.aead_key (next_header pkt.session_key sess)
                pkt.payload)) [
                  | inr (x, bad) ↦ absurd (ground arith)
                  | inl (w, sealed) ↦ (sess, found, ground arith, ground arith, ground arith)
                ]
      ]

  -- What the bridge sends down goes to the client's address, and the holder of the session's key reads
  -- the queued payload from it, under the session's next sequence number. In the table only that
  -- session's counter moved.
  pub decrypt_frame-send_downstream :
      (st st' : BridgeState) (pkt : DownstreamPacket) (peer : SocketAddr) (wire : Bytes)
      (other : SessionKey)
      → pkt.session_key.connection_id < 2 ^ 32
      → send_downstream crypto st pkt ≡ (some (peer, wire), st')
      → (sess : Session) × (get pkt.session_key st.sessions ≡ some sess)
        × (peer ≡ pkt.session_key.client_addr)
        × (decrypt_frame crypto.aead sess.aead_key wire
            ≡ ok (next_header pkt.session_key sess, pkt.payload))
        × (get other st'.sessions ≡ (
            if key_beq pkt.session_key other
            then some (record sess { tx_sequence = (sess.tx_sequence + 1) % 2 ^ 64 })
            else get other st.sessions))
  decrypt_frame-send_downstream st st' pkt peer wire other id e =
      let (sess, found, same, sealed, after) = send_downstream-eq-some st st' pkt peer wire e in
      let v = next_header-IsValid pkt.session_key sess id in
      let new : Session = record sess { tx_sequence = (sess.tx_sequence + 1) % 2 ^ 64 } in
      (
        sess,
        found,
        same,
        decrypt_frame-encrypt_frame crypto.aead sess.aead_key _ pkt.payload wire v sealed,
        rw after (get-insert pkt.session_key other new st.sessions),
      )

  -- Both directions of a connection share one key and count from 1 in one header. So a frame that the
  -- bridge sends down, delivered back to it from the client's address, is taken for a frame of the
  -- client: its payload goes to the session's destination, if the network takes the write.
  pub reflected_downstream :
      (net : Network) (st st' : BridgeState) (pkt : DownstreamPacket) (peer : SocketAddr)
      (wire : Bytes) (now : ℤ) (at : ℕ)
      → pkt.session_key.connection_id < 2 ^ 32
      → send_downstream crypto st pkt ≡ (some (peer, wire), st')
      → ((w : DestWriter) → net.write w pkt.payload ≡ true)
      → (w : DestWriter) × ((handle_packet crypto net st' peer wire now at).0
          ≡ ok (forwarded w pkt.payload))
  reflected_downstream net st st' pkt peer wire now at id e written =
      let (sess, found, same, sealed, after) = send_downstream-eq-some st st' pkt peer wire e in
      let v = next_header-IsValid pkt.session_key sess id in
      let new : Session = record sess { tx_sequence = (sess.tx_sequence + 1) % 2 ^ 64 } in
      let h = next_header pkt.session_key sess in
      let there : get pkt.session_key st'.sessions ≡ some new = rw after (
        get-insert pkt.session_key pkt.session_key new st.sessions
        ∙ rw (beq_refl pkt.session_key) refl) in
      let key : SessionKey = record { client_addr = peer; connection_id = h.connection_id } in
      let mine : key ≡ pkt.session_key = ground arith in
      (
        sess.dest_writer,
        (handle_packet-encrypt_frame crypto net st' peer new h pkt.payload wire now at
            pkt.session_key v refl (rw mine there) sealed (written sess.dest_writer)).0,
      )
