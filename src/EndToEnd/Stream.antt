-- ===== src/EndToEnd/Stream.antt =====
-- A local TCP connection from its first byte to the destination, and back: `handle_tcp_local` of the
-- client, and the bridge's handlers, `drain_dest` and `downstream_sender`.
use lowping.Base.{
  some_injective, ℕ, ◌+◌, ◌%◌, ◌^◌, ◌≤◌, ◌<◌, ◌≡◌, refl, sym, ap, ◌∙◌, subst, true, List, [], ◌∷◌,
  map, All, length, Option, none, some, ok, Result-cases, inl, inr, append-nil, take_of_length-le,
}
use lowping.Base.Bytes.{Bytes}
use lowping.Base.Int.{ℤ}
use lowping.Base.Dict.{get, insert, get-insert_same}
use lowping.Crypto.{Suite}
use lowping.Net.{SocketAddr}
use lowping.Protocol.{Header}
use lowping.Protocol.Connect.{tcp}
use lowping.Protocol.License
use lowping.Protocol.License.{LicenseToken, from_string_b64}
use lowping.Protocol.Frame.{decrypt_frame}
use lowping.Protocol.Frame.Data.{encrypt_frame_total}
use lowping.Bridge.{
  SessionKey, key_eq, Session, BridgeState, Network, DestWriter, DownstreamPacket, new_session,
  register, drain_dest, send_downstream,
}
use lowping.Bridge.Accept.{Authorised}
use lowping.Bridge.Downstream.{next_header, decrypt_frame-send_downstream}
use lowping.Client.{OpenedTunnel, open_tunnel}
use lowping.Client.Modes.{Rule}
use lowping.Client.Tunnel.{open_tunnel-eq-ok, handle_packet-open_tunnel}
use lowping.Client.Tcp.{Recv, frame, forward_stream, relay_responses}
use lowping.Client.Tcp.Stream.{
  chunks, deliver, Joined, Sendable, deliver-forward_stream, forward_stream-ok,
  forward_stream-delivers,
}
use lowping.Client.Connection.{Meets, received_by, peer_of, request_of, handle_tcp_local}
use lowping.EndToEnd.{conn_key, Serves, entered}

-- What the destination sends before its connection ends.
abbrev pub responses : List (Option Bytes) → List Bytes
responses [] = []
responses (none ∷ reads) = []
responses (some [] ∷ reads) = []
responses (some (b ∷ bs) ∷ reads) = (b ∷ bs) ∷ responses reads

-- A read into the bridge's buffer.
abbrev pub Buffered : Option Bytes → Type 0
Buffered none = Unit {0}
Buffered (some chunk) = length chunk ≤ 1200

module _ (crypto : Suite) where
  sent-handle_tcp_local :
      (rule : Rule) (m : Meets) (tunnel : OpenedTunnel) (syn : Bytes)
      → open_tunnel crypto (peer_of rule) m.draw (request_of rule tcp) ≡ ok (tunnel, syn)
      → (handle_tcp_local crypto rule m).sent ≡ syn ∷ (forward_stream crypto tunnel 0 m.reads).0
  unfolding handle_tcp_local
  sent-handle_tcp_local rule m tunnel syn opened = rw (opened, handle_tcp_local) refl

  -- A local connection of a rule is opened. The bridge takes the rule's token, has room and reaches the
  -- rule's destination. Where the AEAD seals every message, every chunk fits the buffer, every send
  -- succeeds, the datagrams are delivered in order and the destination takes what is written, what
  -- the connection sends makes the bridge write to the destination exactly the chunks that are read
  -- before the connection ends, each once and in order.
  pub deliver-handle_tcp_local :
      (net : Network) (addr : SocketAddr) (clock : ℕ → ℤ × ℕ) (rule : Rule) (m : Meets)
      (token : LicenseToken) (tunnel : OpenedTunnel) (syn : Bytes) (w : DestWriter)
      (st : BridgeState)
      → from_string_b64 crypto.b64 rule.license_token ≡ ok token
      → License.IsValid token.payload
      → length token.signature ≡ 64
      → Authorised crypto st (clock (length (chunks m.reads))).0 token
      → Serves crypto net st (peer_of rule) m.draw (request_of rule tcp) w
      → open_tunnel crypto (peer_of rule) m.draw (request_of rule tcp) ≡ ok (tunnel, syn)
      → ((key nonce msg aad : Bytes)
          → (ct : Bytes) × (crypto.aead.encrypt key nonce msg aad ≡ some ct))
      → All (Sendable crypto net addr clock) m.reads
      → ((payload : Bytes) → net.write w payload ≡ true)
      → deliver crypto net addr clock (handle_tcp_local crypto rule m).sent st
        ≡ map (λ chunk. (w, chunk)) (chunks m.reads)
  unfolding deliver new_session
  deliver-handle_tcp_local net addr clock rule m token tunnel syn w st read valid size auth serves
        opened seals fine writes =
      let frames = (forward_stream crypto tunnel 0 m.reads).0 in
      let (now, at) = clock (length frames) in
      let st' = register crypto st (conn_key addr tunnel.connection_id) tunnel.aead_key w at in
      let (same_id, _, _) =
        open_tunnel-eq-ok crypto (peer_of rule) m.draw (request_of rule tcp) tunnel syn _ token
          serves.knows_key read opened in
      let id : tunnel.connection_id < 2 ^ 32 = rw same_id serves.id_u32 in
      let joined : Joined crypto net addr clock tunnel w st' = (
        new_session tunnel.aead_key w at,
        entered crypto st (conn_key addr tunnel.connection_id) tunnel.aead_key w at,
        refl,
        refl,
      ) in
      let (_, all) =
        deliver-forward_stream crypto net addr clock m.reads tunnel 0 w st' id joined writes in
      let every = all (forward_stream-ok crypto net addr clock m.reads tunnel 0 seals fine) in
      let taken =
        handle_packet-open_tunnel crypto net st addr (peer_of rule) m.draw (request_of rule tcp)
          tunnel syn token w now at serves.knows_key read valid size serves.valid serves.id_u32
          opened serves.room (subst (λ n. Authorised crypto st (clock n).0 token) (sym every) auth)
          serves.reached in
      rw (sent-handle_tcp_local rule m tunnel syn opened, taken)
        (forward_stream-delivers crypto net addr clock m.reads tunnel 0 w st' id joined writes seals
          fine)

  -- What `downstream_sender` sends for the packets of its queue, one after the other.
  unfoldable pub send_all_down : BridgeState → List DownstreamPacket → List Bytes
  send_all_down st [] = []
  send_all_down st (pkt ∷ pkts) =
      let (went, st') = send_downstream crypto st pkt in
      let rest = send_all_down st' pkts in
      elim went [ none ↦ rest | some (addr, wire) ↦ wire ∷ rest ]

  abbrev pub Shares : Bytes → SessionKey → BridgeState → Type 0
  Shares shared key st =
      (sess : Session) × (get key st.sessions ≡ some sess) × (sess.aead_key ≡ shared)

  -- A packet of the session's queue: it goes out as a frame that opens under the session's key.
  send_downstream_total :
      (st : BridgeState) (key : SessionKey) (payload shared : Bytes)
      → ((key nonce msg aad : Bytes)
          → (ct : Bytes) × (crypto.aead.encrypt key nonce msg aad ≡ some ct))
      → key.connection_id < 2 ^ 32
      → length payload ≤ 1200
      → Shares shared key st
      → let pkt : DownstreamPacket = record { session_key = key; payload = payload } in
        (wire : Bytes) × (h : Header) × (st' : BridgeState) × (send_downstream crypto st pkt
          ≡ (some (key.client_addr, wire), st'))
        × (decrypt_frame crypto.aead shared wire ≡ ok (h, payload))
        × Shares shared key st'
  send_downstream_total st key payload shared seals id fits (sess, found, same) =
      let pkt : DownstreamPacket = record { session_key = key; payload = payload } in
      let (wire, framed) =
        encrypt_frame_total crypto.aead seals sess.aead_key (next_header key sess) payload fits in
      let new : Session = record sess { tx_sequence = (sess.tx_sequence + 1) % 2 ^ 64 } in
      let st' : BridgeState = record st { sessions = insert key new st.sessions } in
      let went : send_downstream crypto st pkt ≡ (some (key.client_addr, wire), st') =
        unfold send_downstream in rw (found, send_downstream, framed) refl in
      let (there, known, _, opened, after) =
        decrypt_frame-send_downstream crypto st st' pkt key.client_addr wire key id went in
      let one = some_injective there sess (sym known ∙ found) in
      (
        wire,
        next_header key there,
        st',
        went,
        subst (λ k. decrypt_frame crypto.aead k wire ≡ ok (next_header key there, payload))
            (ap (λ (s : Session). s.aead_key) one ∙ same) opened,
        (new, get-insert_same key new st.sessions, same),
      )

  drain_dest-cons :
      (key : SessionKey) (b : ℕ) (bs : Bytes) (reads : List (Option Bytes))
      → length (b ∷ bs) ≤ 1200
      → drain_dest tcp key (some (b ∷ bs) ∷ reads)
        ≡ record { session_key = key; payload = b ∷ bs } ∷ drain_dest tcp key reads
  unfolding drain_dest
  drain_dest-cons key b bs reads fits =
      ap (λ chunk. record { session_key = key; payload = chunk } ∷ drain_dest tcp key reads)
        (take_of_length-le 1200 (b ∷ bs) fits)

  send_all_down-cons :
      (st st' : BridgeState) (pkt : DownstreamPacket) (pkts : List DownstreamPacket)
      (addr : SocketAddr) (wire : Bytes)
      → send_downstream crypto st pkt ≡ (some (addr, wire), st')
      → send_all_down st (pkt ∷ pkts) ≡ wire ∷ send_all_down st' pkts
  unfolding send_all_down
  send_all_down-cons st st' pkt pkts addr wire went =
      rw (went, send_all_down) (ap (λ r. wire ∷ send_all_down r.1 pkts) went)

  relay_responses-cons :
      (tunnel : OpenedTunnel) (wire payload : Bytes) (h : Header) (recvs : List Recv)
      → decrypt_frame crypto.aead tunnel.aead_key wire ≡ ok (h, payload)
      → (relay_responses crypto tunnel (frame wire true ∷ recvs)).0
        ≡ payload ∷ (relay_responses crypto tunnel recvs).0
  unfolding relay_responses
  relay_responses-cons tunnel wire payload h recvs opened = rw (opened, relay_responses) refl

  relay_responses-send_all_down :
      (reads : List (Option Bytes)) (tunnel : OpenedTunnel) (key : SessionKey) (st : BridgeState)
      → ((key nonce msg aad : Bytes)
          → (ct : Bytes) × (crypto.aead.encrypt key nonce msg aad ≡ some ct))
      → key.connection_id < 2 ^ 32
      → All Buffered reads
      → Shares tunnel.aead_key key st
      → (relay_responses crypto tunnel
          (map (λ wire. frame wire true) (send_all_down st (drain_dest tcp key reads)))).0
        ≡ responses reads
  relay_responses-send_all_down [] tunnel key st seals id fine shares =
      unfold drain_dest send_all_down relay_responses in refl
  relay_responses-send_all_down (none ∷ reads) tunnel key st seals id fine shares =
      unfold drain_dest send_all_down relay_responses in refl
  relay_responses-send_all_down (some [] ∷ reads) tunnel key st seals id fine shares =
      unfold drain_dest send_all_down relay_responses in refl
  relay_responses-send_all_down (some (b ∷ bs) ∷ reads) tunnel key st seals id (fits, rest) shares =
      let (wire, h, st', went, opened, shares') =
        send_downstream_total st key (b ∷ bs) tunnel.aead_key seals id fits shares in
      let later = send_all_down st' (drain_dest tcp key reads) in
      let sent =
        ap (send_all_down st) (drain_dest-cons key b bs reads fits)
        ∙ send_all_down-cons st st' _ (drain_dest tcp key reads) key.client_addr wire went in
      let ih = relay_responses-send_all_down reads tunnel key st' seals id rest shares' in
      ap (λ ws. (relay_responses crypto tunnel (map (λ w. frame w true) ws)).0) sent
      ∙ relay_responses-cons tunnel wire (b ∷ bs) h (map (λ w. frame w true) later) opened
      ∙ ap (λ r. (b ∷ bs) ∷ r) ih

  -- The way back. What the destination sends before its connection ends comes to the local connection,
  -- each read once and in order, where the bridge has a session with the tunnel's key, the AEAD seals
  -- every message, a read fits the bridge's buffer, and the bridge's frames reach the connection, all
  -- and in order, before its loop ends, and the local socket takes what is written.
  pub written-handle_tcp_local :
      (rule : Rule) (m : Meets) (tunnel : OpenedTunnel) (syn : Bytes) (key : SessionKey)
      (st : BridgeState) (reads : List (Option Bytes))
      → open_tunnel crypto (peer_of rule) m.draw (request_of rule tcp) ≡ ok (tunnel, syn)
      → ((key nonce msg aad : Bytes)
          → (ct : Bytes) × (crypto.aead.encrypt key nonce msg aad ≡ some ct))
      → key.connection_id < 2 ^ 32
      → Shares tunnel.aead_key key st
      → All Buffered reads
      → m.early ≡ map (λ wire. frame wire true) (send_all_down st (drain_dest tcp key reads))
      → m.late ≡ []
      → (handle_tcp_local crypto rule m).written ≡ responses reads
  unfolding handle_tcp_local
  written-handle_tcp_local rule m tunnel syn key st reads opened seals id shares fine early late =
      let ended = (forward_stream crypto tunnel 0 m.reads).1 in
      let all : received_by ended m ≡ m.early = elim (Result-cases ended) [
        | inl (u, well) ↦ rw well
        | inr (e, bad) ↦ rw (bad, late) (append-nil m.early)
      ] in
      rw (opened, handle_tcp_local)
        (rw (all, early) (relay_responses-send_all_down reads tunnel key st seals id fine shares))
