-- ===== src/Client/Tunnel.antt =====
-- `open_tunnel`: what a tunnel that was opened is made of, and that the bridge accepts its SYN.
use lowping.Base.{
  ℕ, ◌^◌, ◌≤◌, ◌<◌, ◌≡◌, refl, sym, ap, ◌∙◌, ◌++◌, length, take, drop, some, ok, Result-cases,
  Option-cases, inl, inr, arith, length-append, take-append, drop-append, append-nil, append_assoc,
  [],
}
use lowping.Base.Bytes.{Bytes, to_be, length-to_be}
use lowping.Base.Int.{ℤ}
use lowping.Crypto.{Suite}
use lowping.Net.{SocketAddr}
use lowping.Protocol.{Header, proto_version, decode}
use lowping.Protocol
use lowping.Protocol.HeaderCodec
use lowping.Protocol.Flags
use lowping.Protocol.Frame.{encrypt_syn_frame}
use lowping.Protocol.Frame.Syn.{encrypt_syn_frame-eq-ok}
use lowping.Protocol.Connect
use lowping.Protocol.Connect.{ConnectRequest}
use lowping.Protocol.Connect.RoundTrip
use lowping.Protocol.Handshake.{generate_keypair, pubkey_from_bytes, client_derive_session_key}
use lowping.Protocol.Handshake.Agreement.{session_keys_agree, syn_exchange}
use lowping.Protocol.License
use lowping.Protocol.License.{LicenseToken, from_string_b64, to_bytes}
use lowping.Protocol.License.RoundTrip.{from_bytes-to_bytes}
use lowping.Bridge.{
  SessionKey, BridgeState, Network, DestWriter, accepted, accept_new_session, handle_packet,
  register, open_dest, check_syn,
}
use lowping.Bridge.Accept.{Opens, Authorised, check_syn_complete}
use lowping.Client.{Peer, Draw, OpenedTunnel, open_tunnel}

-- The header of a client's SYN.
abbrev pub syn_header : ℕ → Header
syn_header id = record {
  version = proto_version;
  flags = Flags.syn;
  connection_id = id;
  sequence = 0;
}

syn_header-IsValid : (id : ℕ) → id < 2 ^ 32 → Protocol.IsValid (syn_header id)
syn_header-IsValid id h = record {
  current = refl;
  flags_high = refl;
  flags_byte = omega arith;
  id_u32 = h;
  seq_u64 = omega arith;
}

module _ (crypto : Suite) where
  -- A tunnel that was opened has the drawn id and the key agreed with the bridge, and its SYN is
  -- sealed under that key.
  pub open_tunnel-eq-ok :
      (peer : Peer) (draw : Draw) (connect : ConnectRequest) (tunnel : OpenedTunnel)
      (wire pk : Bytes) (token : LicenseToken)
      → crypto.hex.decode peer.bridge_x25519_pubkey_hex ≡ some pk
      → from_string_b64 crypto.b64 peer.license_token ≡ ok token
      → open_tunnel crypto peer draw connect ≡ ok (tunnel, wire)
      → (tunnel.connection_id ≡ draw.connection_id)
        × (tunnel.aead_key ≡ client_derive_session_key crypto.ecdh draw.secret pk)
        × (encrypt_syn_frame crypto.aead tunnel.aead_key
              (syn_header draw.connection_id)
              (crypto.ecdh.public_key draw.secret)
              (to_bytes token ++ Connect.encode connect)
            ≡ ok wire)
  unfolding open_tunnel generate_keypair pubkey_from_bytes
  open_tunnel-eq-ok peer draw connect tunnel wire pk token hex text e =
      let key = client_derive_session_key crypto.ecdh draw.secret pk in
      elim (Option-cases draw.socket) [
        | inl none_left ↦ absurd (ground arith)
        | inr (udp, bound) ↦
            elim (Result-cases (
              encrypt_syn_frame crypto.aead key (syn_header draw.connection_id)
                (crypto.ecdh.public_key draw.secret) (to_bytes token ++ Connect.encode connect))) [
                  | inr (x, bad) ↦ absurd (ground arith)
                  | inl (w, sealed) ↦
                      let key_is : key ≡ tunnel.aead_key = ground arith in
                      let wire_is : w ≡ wire = ground arith in
                      (ground arith, sym key_is, rw wire_is at (rw key_is at sealed))
                ]
      ]

  inner_parts :
      (token : LicenseToken) (c : ConnectRequest)
      → License.IsValid token.payload
      → length token.signature ≡ 64
      → Connect.IsValid c
      → let inner = to_bytes token ++ Connect.encode c in
        (92 ≤ length inner)
        × (License.from_bytes (take 88 inner) ≡ ok token)
        × (Connect.decode (drop 88 inner) ≡ ok c)
  inner_parts token c v size w =
      let (long, read) = from_bytes-to_bytes token v size in
      let rest = Connect.encode c in
      let enough : 4 ≤ length rest =
        unfold Connect.encode in
        omega (
          arith,
          length-append (Connect.addr_bytes c.dest_ip) (to_be 2 c.dest_port),
          length-to_be 2 c.dest_port,
        ) in
      (
        omega (arith, length-append (to_bytes token) rest),
        rw (take-append 88 (to_bytes token) rest long) read,
        rw (drop-append 88 (to_bytes token) rest long)
            (rw append-nil at (RoundTrip.decode-encode c [] w)),
      )

  accepts :
      (net : Network) (st : BridgeState) (key : SessionKey) (wire k : Bytes) (c : ConnectRequest)
      (w : DestWriter) (now : ℤ) (at : ℕ)
      → check_syn crypto st wire now ≡ ok (k, c)
      → open_dest net c ≡ some w
      → accept_new_session crypto net st key wire now at ≡ (ok tt, register crypto st key k w at)
  unfolding accept_new_session
  accepts net st key wire k c w now at passed reached =
      rw (passed, accept_new_session, reached) refl

  -- The bridge whose key the client knows accepts the client's SYN, if the token has authority there,
  -- the table has room and the destination is reached. It enters a session with the tunnel's key.
  pub handle_packet-open_tunnel :
      (net : Network) (st : BridgeState) (addr : SocketAddr) (peer : Peer) (draw : Draw)
      (connect : ConnectRequest) (tunnel : OpenedTunnel) (wire : Bytes) (token : LicenseToken)
      (w : DestWriter) (now : ℤ) (at : ℕ)
      → crypto.hex.decode peer.bridge_x25519_pubkey_hex
        ≡ some (crypto.ecdh.public_key st.bridge_secret)
      → from_string_b64 crypto.b64 peer.license_token ≡ ok token
      → License.IsValid token.payload
      → length token.signature ≡ 64
      → Connect.IsValid connect
      → draw.connection_id < 2 ^ 32
      → open_tunnel crypto peer draw connect ≡ ok (tunnel, wire)
      → length st.sessions < st.config.max_sessions
      → Authorised crypto st now token
      → open_dest net connect ≡ some w
      → let key : SessionKey = record {
        client_addr = addr;
        connection_id = tunnel.connection_id;
      } in
        handle_packet crypto net st addr wire now at
        ≡ (ok accepted, register crypto st key tunnel.aead_key w at)
  unfolding handle_packet
  handle_packet-open_tunnel net st addr peer draw connect tunnel wire token w now at hex text v size
        valid id opened room auth reached =
      let (same_id, key, sealed) =
        open_tunnel-eq-ok peer draw connect tunnel wire _ token hex text opened in
      let h = syn_header draw.connection_id in
      let inner : Bytes = to_bytes token ++ Connect.encode connect in
      let hv = syn_header-IsValid draw.connection_id id in
      let (front, pk_bytes, plain) =
        syn_exchange crypto.ecdh crypto.aead draw.secret st.bridge_secret h inner wire hv
          (unfold generate_keypair in rw key at sealed) in
      let (long, token_read, connect_read) = inner_parts token connect v size valid in
      let agreed = key ∙ sym (session_keys_agree crypto.ecdh draw.secret st.bridge_secret) in
      let o : Opens crypto st wire tunnel.aead_key connect = record {
        header = h;
        client_pk = crypto.ecdh.public_key draw.secret;
        inner = inner;
        token = token;
        front = unfold generate_keypair in front;
        pk_bytes = unfold generate_keypair in pk_bytes;
        derived = agreed;
        opened = rw agreed (unfold generate_keypair in plain);
        long = long;
        token_read = token_read;
        connect_read = connect_read;
      } in
      let passed = check_syn_complete crypto st wire tunnel.aead_key now connect room o auth in
      let (ct, fits, _, whole) = encrypt_syn_frame-eq-ok crypto.aead _ h _ inner wire sealed in
      let read : decode wire ≡ ok h =
        ap decode (whole ∙ append_assoc (Protocol.encode h) _ ct)
        ∙ HeaderCodec.decode-encode h _ hv in
      let key : SessionKey = record { client_addr = addr; connection_id = draw.connection_id } in
      let entered = accepts net st key wire tunnel.aead_key connect w now at passed reached in
      rw (read, handle_packet, entered, same_id) refl
