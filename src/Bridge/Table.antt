-- ===== src/Bridge/Table.antt =====
-- The session table under the bridge's handlers: one entry for a key, never above the limit.
use lowping.Base.{
  ℕ, ◌+◌, ◌%◌, ◌^◌, ◌≤◌, ◌<◌, ◌≡◌, Bool, length, List, [], ◌∷◌, some, ok, Result-cases,
  Option-cases, inl, inr, if◌then◌else◌, arith,
}
use lowping.Base.Bytes.{Bytes}
use lowping.Base.Int.{ℤ}
use lowping.Base.Dict.{
  Dict, NodupKeys, get, insert, remove, get-insert, insert-NodupKeys, length-insert-le,
  length-insert_present, remove-NodupKeys, length-remove-le,
}
use lowping.Crypto.{Suite}
use lowping.Net.{SocketAddr}
use lowping.Protocol.{decode}
use lowping.Protocol.Connect.{ConnectRequest}
use lowping.Bridge.{
  SessionKey, key_beq, key_eq, Session, BridgeState, Network, DestWriter, DownstreamPacket,
  new_session, open_dest, check_syn, register, accept_new_session, forward_data, handle_packet,
  send_downstream, idle_keys, remove_all, reap,
}
use lowping.Bridge.Accept.{Opens, Authorised, check_syn_sound}

pub record IsTable (st : BridgeState) : Type 0 where
  pub unique : NodupKeys st.sessions
  pub bounded : length st.sessions ≤ st.config.max_sessions

-- A write to an entry that is there.
touch-IsTable :
    (st : BridgeState) (key : SessionKey) (old new : Session)
    → get key st.sessions ≡ some old
    → IsTable st
    → IsTable (record st { sessions = insert key new st.sessions })
touch-IsTable st key old new found v =
    let same = length-insert_present key new old st.sessions found in
    record { unique = insert-NodupKeys key new st.sessions v.unique; bounded = rw same v.bounded }

remove_all-IsTable :
    (ks : List SessionKey) (m : Dict SessionKey Session) (n : ℕ)
    → NodupKeys m
    → length m ≤ n
    → NodupKeys (remove_all ks m) × (length (remove_all ks m) ≤ n)
unfolding remove_all
remove_all-IsTable [] m n u h = (u, h)
remove_all-IsTable (k ∷ ks) m n u h =
    remove_all-IsTable ks (remove k m) n (remove-NodupKeys k m u)
      (omega (arith, length-remove-le k m))

module _ (crypto : Suite) where
  -- How a SYN was accepted.
  accepted_by :
      (net : Network) (st st' : BridgeState) (key : SessionKey) (pkt : Bytes) (now : ℤ) (at : ℕ)
      → accept_new_session crypto net st key pkt now at ≡ (ok tt, st')
      → (k : Bytes) × (c : ConnectRequest) × (w : DestWriter) × (check_syn crypto st pkt now
          ≡ ok (k, c))
        × (open_dest net c ≡ some w)
        × (st' ≡ register crypto st key k w at)
  unfolding accept_new_session
  accepted_by net st st' key pkt now at e = elim (Result-cases (check_syn crypto st pkt now)) [
    | inr (x, bad) ↦ absurd (ground arith)
    | inl ((k, c), passed) ↦ elim (Option-cases (open_dest net c)) [
      | inl closed ↦ absurd (ground arith)
      | inr (w, opened) ↦ (k, c, w, passed, opened, ground arith)
    ]
  ]

  -- A session is opened only for a SYN that opens under the key derived from the public key in it,
  -- with a token of the backend that is in its window and has the scope asked for, while the table
  -- had room and the destination could be reached. Then the table has for this key a fresh session
  -- with that key and that destination, and for any other key what it had.
  pub accept_new_session_sound :
      (net : Network) (st st' : BridgeState) (key other : SessionKey) (pkt : Bytes) (now : ℤ)
      (at : ℕ)
      → accept_new_session crypto net st key pkt now at ≡ (ok tt, st')
      → (k : Bytes) × (c : ConnectRequest) × (w : DestWriter) × (o : Opens crypto st pkt k c)
        × Authorised crypto st now o.token
        × (length st.sessions < st.config.max_sessions)
        × (open_dest net c ≡ some w)
        × (get other st'.sessions
            ≡ (if key_beq key other then some (new_session k w at) else get other st.sessions))
  unfolding register
  accept_new_session_sound net st st' key other pkt now at e =
      let (k, c, w, passed, opened, same) = accepted_by net st st' key pkt now at e in
      let (room, o, a) = check_syn_sound crypto st pkt k now c passed in
      (k, c, w, o, a, room, opened, rw same (get-insert key other (new_session k w at) st.sessions))

  register-IsTable :
      (st : BridgeState) (key : SessionKey) (k : Bytes) (w : DestWriter) (at : ℕ)
      → length st.sessions < st.config.max_sessions
      → IsTable st
      → IsTable (register crypto st key k w at)
  unfolding register
  register-IsTable st key k w at room v = record {
    unique = insert-NodupKeys key (new_session k w at) st.sessions v.unique;
    bounded = omega (arith, length-insert-le key (new_session k w at) st.sessions);
  }

  pub accept-IsTable :
      (net : Network) (st : BridgeState) (key : SessionKey) (pkt : Bytes) (now : ℤ) (at : ℕ)
      → IsTable st
      → IsTable (accept_new_session crypto net st key pkt now at).1
  unfolding accept_new_session
  accept-IsTable net st key pkt now at v = elim (Result-cases (check_syn crypto st pkt now)) [
    | inr (x, bad) ↦ rw (bad, accept_new_session) v
    | inl ((k, c), passed) ↦
        let room = (check_syn_sound crypto st pkt k now c passed).0 in
        elim (Option-cases (open_dest net c)) [
          | inl closed ↦ rw (passed, accept_new_session, closed) v
          | inr (w, opened) ↦
              rw (passed, accept_new_session, opened) (register-IsTable st key k w at room v)
        ]
  ]

  pub forward-IsTable :
      (net : Network) (st : BridgeState) (key : SessionKey) (pkt : Bytes) (at : ℕ)
      → IsTable st
      → IsTable (forward_data crypto net st key pkt at).1
  unfolding forward_data
  forward-IsTable net st key pkt at v = elim (Option-cases (get key st.sessions)) [
    | inl gone ↦ rw (gone, forward_data) v
    | inr (sess, found) ↦
        let touched = touch-IsTable st key sess (record sess { last_active = at }) found v in
        ground arith
  ]

  pub downstream-IsTable :
      (st : BridgeState) (pkt : DownstreamPacket)
      → IsTable st
      → IsTable (send_downstream crypto st pkt).1
  unfolding send_downstream
  downstream-IsTable st pkt v = elim (Option-cases (get pkt.session_key st.sessions)) [
    | inl gone ↦ rw (gone, send_downstream) v
    | inr (sess, found) ↦
        let seq : ℕ = (sess.tx_sequence + 1) % 2 ^ 64 in
        let touched =
          touch-IsTable st pkt.session_key sess (record sess { tx_sequence = seq }) found v in
        ground arith
  ]

  -- Every datagram, whatever it holds, leaves one entry for a key and no more than `max_sessions`.
  pub handle_packet-IsTable :
      (net : Network) (st : BridgeState) (peer : SocketAddr) (pkt : Bytes) (now : ℤ) (at : ℕ)
      → IsTable st
      → IsTable (handle_packet crypto net st peer pkt now at).1
  unfolding handle_packet
  handle_packet-IsTable net st peer pkt now at v = elim (Result-cases (decode pkt)) [
    | inr (x, bad) ↦ rw (bad, handle_packet) v
    | inl (h, read) ↦
        let key : SessionKey = record { client_addr = peer; connection_id = h.connection_id } in
        rw (read, handle_packet)
          (ground
            (arith, accept-IsTable net st key pkt now at v, forward-IsTable net st key pkt at v))
  ]

pub reap-IsTable :
    (locked : SessionKey → Bool) (at : ℕ) (st : BridgeState)
    → IsTable st
    → IsTable (reap locked at st)
unfolding reap
reap-IsTable locked at st v =
    let keys = idle_keys locked st.config.idle_timeout_secs at st.sessions in
    let (unique, bounded) =
      remove_all-IsTable keys st.sessions st.config.max_sessions v.unique v.bounded in
    record { unique = unique; bounded = bounded }
