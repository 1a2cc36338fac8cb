-- ===== src/Client/Tcp/Stream.antt =====
-- A local TCP connection through the tunnel and the bridge: the destination gets its bytes, in order.
use lowping.Base.{
  All, take_of_length-le, some, ◌≤◌, ℕ, suc, ◌+◌, ◌%◌, ◌^◌, ◌<◌, ◌≡◌, refl, ap, ◌∙◌, true,
  Bool-cases, List, [], ◌∷◌, ◌++◌, map, length, take, some, Result, Result-cases, ok, err, inl, inr,
  arith,
}
use lowping.Base.Bytes.{Bytes}
use lowping.Base.Int.{ℤ}
use lowping.Base.Dict.{get}
use lowping.Crypto.{Suite}
use lowping.Net.{SocketAddr}
use lowping.Protocol
use lowping.Protocol.Frame.{encrypt_frame}
use lowping.Protocol.Frame.Data.{encrypt_frame_total}
use lowping.Bridge.{
  SessionKey, key_beq, key_eq, key_beq_iff, Session, BridgeState, BridgeError, Network, DestWriter,
  Handled, accepted, forwarded, handle_packet,
}
use lowping.Bridge.Forward.{handle_packet-encrypt_frame}
use lowping.Client.{OpenedTunnel}
use lowping.Client.Tcp.{Read, received, read_failed, read_timed_out, tcp_header, forward_stream}

-- The chunks that are read before the connection ends.
abbrev pub chunks : List Read → List Bytes
chunks [] = []
chunks (read_failed ∷ reads) = []
chunks (read_timed_out ∷ reads) = chunks reads
chunks (received [] sent ∷ reads) = []
chunks (received (b ∷ bs) sent ∷ reads) = (b ∷ bs) ∷ chunks reads

-- What a datagram made the bridge write.
abbrev pub written_by : Result BridgeError Handled → List (DestWriter × Bytes)
written_by (err e) = []
written_by (ok accepted) = []
written_by (ok (forwarded w payload)) = (w, payload) ∷ []

tcp_header-IsValid :
    (tunnel : OpenedTunnel) (seq : ℕ)
    → tunnel.connection_id < 2 ^ 32
    → seq < 2 ^ 64
    → Protocol.IsValid (tcp_header tunnel seq)
tcp_header-IsValid tunnel seq id small = record {
  current = refl;
  flags_high = refl;
  flags_byte = omega arith;
  id_u32 = id;
  seq_u64 = small;
}

module _ (crypto : Suite) (net : Network) (peer : SocketAddr) (clock : ℕ → ℤ × ℕ) where
  -- The datagrams reach the bridge one after the other; the clock is read at each.
  unfoldable pub deliver : List Bytes → BridgeState → List (DestWriter × Bytes)
  deliver [] st = []
  deliver (wire ∷ wires) st =
      let (now, at) = clock (length wires) in
      let (handled, st') = handle_packet crypto net st peer wire now at in
      written_by handled ++ deliver wires st'

  -- The bridge has a session for the tunnel, to this destination.
  abbrev pub Joined : OpenedTunnel → DestWriter → BridgeState → Type 0
  Joined tunnel w st =
      (sess : Session) × (get (record { client_addr = peer; connection_id = tunnel.connection_id })
          st.sessions
        ≡ some sess)
      × (sess.aead_key ≡ tunnel.aead_key)
      × (sess.dest_writer ≡ w)

  deliver_frame :
      (tunnel : OpenedTunnel) (w : DestWriter) (st : BridgeState) (seq : ℕ) (chunk wire : Bytes)
      (now : ℤ) (at : ℕ)
      → tunnel.connection_id < 2 ^ 32
      → seq < 2 ^ 64
      → Joined tunnel w st
      → ((payload : Bytes) → net.write w payload ≡ true)
      → encrypt_frame crypto.aead tunnel.aead_key (tcp_header tunnel seq) chunk ≡ ok wire
      → (written_by (handle_packet crypto net st peer wire now at).0 ≡ (w, chunk) ∷ [])
        × Joined tunnel w (handle_packet crypto net st peer wire now at).1
  deliver_frame tunnel w st seq chunk wire now at id small (sess, found, key, dest) writes sealed =
      let k : SessionKey = record { client_addr = peer; connection_id = tunnel.connection_id } in
      let (done, after) =
        handle_packet-encrypt_frame crypto net st peer sess (tcp_header tunnel seq) chunk wire now
          at k (tcp_header-IsValid tunnel seq id small) refl found (rw key sealed)
          (rw dest (writes chunk)) in
      let same : key_beq k k ≡ true = (key_beq_iff k k).1 refl in
      (
        ap written_by done ∙ ap (λ d. (d, chunk) ∷ []) dest,
        (record sess { last_active = at }, rw same at after, key, dest),
      )

  -- The frames of one connection make the bridge write the chunks that were read, each once, in order,
  -- to the session's destination, as far as frames were sent. And where the loop ends without an error,
  -- every chunk was sent.
  pub deliver-forward_stream :
      (reads : List Read) (tunnel : OpenedTunnel) (seq : ℕ) (w : DestWriter) (st : BridgeState)
      → tunnel.connection_id < 2 ^ 32
      → Joined tunnel w st
      → ((payload : Bytes) → net.write w payload ≡ true)
      → let (frames, end) = forward_stream crypto tunnel seq reads in
        (deliver frames st ≡ map (λ chunk. (w, chunk)) (take (length frames) (chunks reads)))
        × (end ≡ ok tt → length frames ≡ length (chunks reads))
  unfolding forward_stream deliver
  deliver-forward_stream [] tunnel seq w st id joined writes = (refl, (λ _. refl))
  deliver-forward_stream (read_failed ∷ reads) tunnel seq w st id joined writes =
      (refl, (λ _. refl))
  deliver-forward_stream (read_timed_out ∷ reads) tunnel seq w st id joined writes =
      deliver-forward_stream reads tunnel seq w st id joined writes
  deliver-forward_stream (received [] sent ∷ reads) tunnel seq w st id joined writes =
      (refl, (λ _. refl))
  deliver-forward_stream (received (b ∷ bs) sent ∷ reads) tunnel seq w st id joined writes =
      let next = (seq + 1) % 2 ^ 64 in
      elim (Result-cases
        (encrypt_frame crypto.aead tunnel.aead_key (tcp_header tunnel next) (b ∷ bs))) [
          | inr (x, refused) ↦ rw (refused, forward_stream) (refl, (λ failed. absurd cc))
          | inl (wire, sealed) ↦ elim (Bool-cases sent) [
            | inr lost ↦ rw (sealed, forward_stream, lost) (refl, (λ failed. absurd cc))
            | inl kept ↦
                let frames = (forward_stream crypto tunnel next reads).0 in
                let (now, at) = clock (length frames) in
                let (wrote, joined') =
                  deliver_frame tunnel w st next (b ∷ bs) wire now at id (omega arith) joined writes
                    sealed in
                let (rest, all) =
                  deliver-forward_stream reads tunnel next w
                    (handle_packet crypto net st peer wire now at).1 id joined' writes in
                rw (sealed, forward_stream, kept)
                  (rw (wrote, rest) refl, (λ fine. ap suc (all fine)))
          ]
        ]

  -- A read that fits the buffer, behind which the send succeeds.
  abbrev pub Sendable : Read → Type 0
  Sendable read_failed = Unit {0}
  Sendable read_timed_out = Unit {0}
  Sendable (received chunk sent) = (length chunk ≤ 1200) × (sent ≡ true)

  pub forward_stream-ok :
      (reads : List Read) (tunnel : OpenedTunnel) (seq : ℕ)
      → ((key nonce msg aad : Bytes)
          → (ct : Bytes) × (crypto.aead.encrypt key nonce msg aad ≡ some ct))
      → All Sendable reads
      → (forward_stream crypto tunnel seq reads).1 ≡ ok tt
  unfolding forward_stream
  forward_stream-ok [] tunnel seq seals fine = refl
  forward_stream-ok (read_failed ∷ reads) tunnel seq seals fine = refl
  forward_stream-ok (read_timed_out ∷ reads) tunnel seq seals fine =
      forward_stream-ok reads tunnel seq seals fine.1
  forward_stream-ok (received [] sent ∷ reads) tunnel seq seals fine = refl
  forward_stream-ok (received (b ∷ bs) sent ∷ reads) tunnel seq seals ((fits, kept), rest) =
      let next = (seq + 1) % 2 ^ 64 in
      let (wire, framed) =
        encrypt_frame_total crypto.aead seals tunnel.aead_key (tcp_header tunnel next) (b ∷ bs)
          fits in
      rw (framed, forward_stream, kept) (forward_stream-ok reads tunnel next seals rest)

  -- Where the AEAD seals every message, every chunk fits the buffer, every send succeeds, the datagrams
  -- are delivered in order and the destination takes what is written, every chunk that is read before
  -- the connection ends reaches the destination, once and in order.
  pub forward_stream-delivers :
      (reads : List Read) (tunnel : OpenedTunnel) (seq : ℕ) (w : DestWriter) (st : BridgeState)
      → tunnel.connection_id < 2 ^ 32
      → Joined tunnel w st
      → ((payload : Bytes) → net.write w payload ≡ true)
      → ((key nonce msg aad : Bytes)
          → (ct : Bytes) × (crypto.aead.encrypt key nonce msg aad ≡ some ct))
      → All Sendable reads
      → deliver (forward_stream crypto tunnel seq reads).0 st
        ≡ map (λ chunk. (w, chunk)) (chunks reads)
  forward_stream-delivers reads tunnel seq w st id joined writes seals fine =
      let (delivered, all) = deliver-forward_stream reads tunnel seq w st id joined writes in
      let every = all (forward_stream-ok reads tunnel seq seals fine) in
      delivered
      ∙ ap (map (λ chunk. (w, chunk))) (
          take_of_length-le (length (forward_stream crypto tunnel seq reads).0) (chunks reads)
            (omega arith))
