-- ===== src/EndToEnd.antt =====
-- The crates together: a user signs up at the backend, the client opens a tunnel with the token and
-- the bridge of the signed directory relays the datagrams.
pub mod Captured
pub mod Stream
pub mod Setup
use lowping.Base.{
  ℕ, ◌+◌, ◌^◌, ◌≤◌, ◌<◌, ◌≡◌, inr, refl, sym, ap, ◌∙◌, true, [], ◌∷◌, Option, some, none, ok,
  length, take, drop, arith,
}
use lowping.Base.Bytes.{Bytes}
use lowping.Base.Int.{ℤ, pos}
use lowping.Base.Eq.{Eq, beq_refl}
use lowping.Base.Dict.{Dict, get, get-insert}
use lowping.Crypto.{Suite}
use lowping.Net.{SocketAddr}
use lowping.Protocol.{encode}
use lowping.Protocol.Nonce.{derive_nonce}
use lowping.Protocol.Frame.{encrypt_frame}
use lowping.Protocol.Frame.Data.{sealed_body, sealed_front}
use lowping.Protocol.Connect
use lowping.Protocol.Connect.{ConnectRequest}
use lowping.Protocol.License
use lowping.Protocol.License.{LicenseToken, from_string_b64}
use lowping.Protocol.License.Validity.{verify-eq-ok}
use lowping.Backend.{AppState, SignupResponse, signup}
use lowping.Backend.Issue.{signup_verifies}
use lowping.Bridge.{
  SessionKey, Session, key_eq, new_session, BridgeState, Network, DestWriter, DownstreamPacket,
  accepted, forwarded, handle_packet, register, open_dest, send_downstream,
}
use lowping.Bridge.Accept.{Authorised}
use lowping.Bridge.Downstream.{decrypt_frame-send_downstream, next_header, send_downstream-eq-some}
use lowping.Bridge.Forward.{handle_packet-encrypt_frame}
use lowping.Client.{
  Peer, Draw, OpenedTunnel, UdpSession, session_of, data_header, open_tunnel, send_datagram,
  receive_frame, handle_datagram,
}
use lowping.Client.Tunnel.{open_tunnel-eq-ok, handle_packet-open_tunnel}
use lowping.Client.Udp.{
  data_header-IsValid, send_datagram-eq-some, handle_datagram-known, handle_datagram-new,
  as_list_one,
}

-- The key of a connection at the bridge.
abbrev pub conn_key : SocketAddr → ℕ → SessionKey
conn_key addr id = record { client_addr = addr; connection_id = id }

-- What a client's peer and request must be for a bridge at some time.
pub record Serves (crypto : Suite) (net : Network) (st : BridgeState) (peer : Peer) (draw : Draw)
    (connect : ConnectRequest) (w : DestWriter) : Type 0 where
  pub knows_key :
      crypto.hex.decode peer.bridge_x25519_pubkey_hex
      ≡ some (crypto.ecdh.public_key st.bridge_secret)
  pub valid : Connect.IsValid connect
  pub id_u32 : draw.connection_id < 2 ^ 32
  pub room : length st.sessions < st.config.max_sessions
  pub reached : open_dest net connect ≡ some w

module _ (crypto : Suite) where
  -- A token that the backend gave at a signup is taken by a bridge that has the backend's key, at every
  -- time from the signup to the end of the token's time to live, exclusive: the SYN that the client
  -- sends with it opens a session under the client's key.
  pub signup_to_session :
      (net : Network) (s s' : AppState) (t now : ℕ) (r : SignupResponse) (st : BridgeState)
      (addr : SocketAddr) (peer : Peer) (draw : Draw) (connect : ConnectRequest)
      (tunnel : OpenedTunnel) (syn : Bytes) (w : DestWriter) (at : ℕ)
      → s.next_user_id + 1 < 2 ^ 32
      → s.verifying_key ≡ crypto.ed.verifying_key s.signing_key
      → st.backend_pubkey ≡ s.verifying_key
      → t + s.config.token_ttl_secs < 2 ^ 63
      → t ≤ now
      → now < t + s.config.token_ttl_secs
      → signup crypto s (pos t) ≡ some (r, s')
      → peer.license_token ≡ r.license_token
      → Serves crypto net st peer draw connect w
      → open_tunnel crypto peer draw connect ≡ ok (tunnel, syn)
      → handle_packet crypto net st addr syn (pos now) at ≡ (
        ok accepted,
        register crypto st (conn_key addr tunnel.connection_id) tunnel.aead_key w at,
      )
  signup_to_session net s s' t now r st addr peer draw connect tunnel syn w at room key same range
        from until signed text serves opened =
      let (r', token, again, read, good, payload, size) =
        signup_verifies crypto s t now room key range from until in
      let one : r' ≡ r = ground arith in
      let (sound, lo, hi) = verify-eq-ok crypto.ed token s.verifying_key (pos now) good in
      let valid : License.IsValid token.payload = rw payload (record {
        user_u32 = omega arith;
        issued_i64 = omega arith;
        expires_i64 = omega arith;
        scope_u32 = omega arith;
      }) in
      let auth : Authorised crypto st (pos now) token = record {
        signed = rw same sound;
        issued = lo;
        unexpired = hi;
        scoped = inr (rw payload (ground arith));
      } in
      handle_packet-open_tunnel crypto net st addr peer draw connect tunnel syn token w (pos now) at
        serves.knows_key (rw (text, ← one) read) valid size serves.valid serves.id_u32 opened
        serves.room auth serves.reached

  -- A datagram of a local source that has a session: the one frame that goes out for it, delivered to a
  -- bridge whose session of this connection has the same key, makes the bridge write the very datagram to
  -- that session's destination, if the network takes the write.
  pub handle_packet-handle_datagram :
      {K : Type 0} ⦃e : Eq K⦄ (net : Network) (sessions : Dict K UdpSession) (src : K)
      (sess : UdpSession) (fresh : Option (OpenedTunnel × Bytes)) (payload wire : Bytes)
      (udp sent : ℕ) (st : BridgeState) (addr : SocketAddr) (there : Session) (now : ℤ) (at : ℕ)
      → get src sessions ≡ some sess
      → sess.connection_id < 2 ^ 32
      → (handle_datagram crypto sessions src fresh payload sent).0 ≡ (udp, wire) ∷ []
      → get (conn_key addr sess.connection_id) st.sessions ≡ some there
      → there.aead_key ≡ sess.aead_key
      → net.write there.dest_writer payload ≡ true
      → (udp ≡ sess.udp_to_bridge)
        × ((handle_packet crypto net st addr wire now at).0
            ≡ ok (forwarded there.dest_writer payload))
  handle_packet-handle_datagram net sessions src sess fresh payload wire udp sent st addr there now
        at found id e known key written =
      let went = handle_datagram-known crypto sessions src sess fresh payload sent found in
      let out : (send_datagram crypto sess payload sent).0 ≡ some (udp, wire) =
        as_list_one _ (udp, wire) (sym went ∙ e) in
      let (sealed, socket) = send_datagram-eq-some crypto sess payload wire sent udp out in
      (
        socket,
        (handle_packet-encrypt_frame crypto net st addr there (data_header sess) payload wire now at
            (conn_key addr sess.connection_id) (data_header-IsValid sess id) refl known
            (rw key sealed) written).0,
      )

  pub entered :
      (st : BridgeState) (key : SessionKey) (k : Bytes) (w : DestWriter) (at : ℕ)
      → get key (register crypto st key k w at).sessions ≡ some (new_session k w at)
  unfolding register
  entered st key k w at =
      get-insert key key (new_session k w at) st.sessions ∙ rw (beq_refl key) refl

  -- A source's first datagram: the client opens a tunnel and sends the SYN and a data frame. The bridge
  -- accepts the SYN, if the token has authority there, and then the data frame makes it write the very
  -- datagram to the destination asked for, if the network takes the write.
  pub first_datagram :
      {K : Type 0} ⦃e : Eq K⦄ (net : Network) (sessions : Dict K UdpSession) (src : K) (peer : Peer)
      (draw : Draw) (connect : ConnectRequest) (token : LicenseToken) (tunnel : OpenedTunnel)
      (payload syn wire : Bytes) (udp sent : ℕ) (st : BridgeState) (addr : SocketAddr)
      (w : DestWriter) (now later : ℤ) (at at' : ℕ)
      → from_string_b64 crypto.b64 peer.license_token ≡ ok token
      → License.IsValid token.payload
      → length token.signature ≡ 64
      → Authorised crypto st now token
      → Serves crypto net st peer draw connect w
      → open_tunnel crypto peer draw connect ≡ ok (tunnel, syn)
      → get src sessions ≡ none
      → (handle_datagram crypto sessions src (some (tunnel, syn)) payload sent).0
        ≡ (tunnel.udp_to_bridge, syn) ∷ (udp, wire) ∷ []
      → net.write w payload ≡ true
      → let first = handle_packet crypto net st addr syn now at in
        (first.0 ≡ ok accepted)
        × ((handle_packet crypto net first.1 addr wire later at').0 ≡ ok (forwarded w payload))
  unfolding new_session
  first_datagram net sessions src peer draw connect token tunnel payload syn wire udp sent st addr w
        now later at at' read valid size auth serves opened none_yet e written =
      let went = handle_datagram-new crypto sessions src tunnel syn payload sent none_yet in
      let sess = session_of tunnel sent in
      let out = as_list_one _ (udp, wire) (ap (drop 1) (sym went ∙ e)) in
      let (sealed, socket) = send_datagram-eq-some crypto sess payload wire sent udp out in
      let key = conn_key addr tunnel.connection_id in
      let (same_id, _, _) =
        open_tunnel-eq-ok crypto peer draw connect tunnel syn _ token serves.knows_key read
          opened in
      let id : tunnel.connection_id < 2 ^ 32 = rw same_id serves.id_u32 in
      let taken =
        handle_packet-open_tunnel crypto net st addr peer draw connect tunnel syn token w now at
          serves.knows_key read valid size serves.valid serves.id_u32 opened serves.room auth
          serves.reached in
      rw taken (
        refl,
        (handle_packet-encrypt_frame crypto net (register crypto st key tunnel.aead_key w at) addr
            (new_session tunnel.aead_key w at) (data_header sess) payload wire later at' key
            (data_header-IsValid sess id) refl (entered st key tunnel.aead_key w at) sealed
            written).0,
      )

  -- A SYN for which the bridge has a session is delivered again. While its token is in its window, the
  -- table has room and the destination can be reached, it is accepted again: the session of its
  -- connection keeps the key, and its counter starts again from 0.
  pub replayed_syn :
      (net : Network) (st : BridgeState) (addr : SocketAddr) (peer : Peer) (draw : Draw)
      (connect : ConnectRequest) (tunnel : OpenedTunnel) (syn : Bytes) (token : LicenseToken)
      (w : DestWriter) (old : Session) (now : ℤ) (at : ℕ)
      → from_string_b64 crypto.b64 peer.license_token ≡ ok token
      → License.IsValid token.payload
      → length token.signature ≡ 64
      → Authorised crypto st now token
      → Serves crypto net st peer draw connect w
      → open_tunnel crypto peer draw connect ≡ ok (tunnel, syn)
      → get (conn_key addr tunnel.connection_id) st.sessions ≡ some old
      → old.aead_key ≡ tunnel.aead_key
      → ((handle_packet crypto net st addr syn now at).0 ≡ ok accepted)
        × (new : Session) × (get
              (conn_key addr tunnel.connection_id)
              (handle_packet crypto net st addr syn now at).1.sessions
            ≡ some new)
        × (new.aead_key ≡ old.aead_key)
        × (new.tx_sequence ≡ 0)
  unfolding new_session
  replayed_syn net st addr peer draw connect tunnel syn token w old now at read valid size auth
        serves opened had same =
      let key = conn_key addr tunnel.connection_id in
      let taken =
        handle_packet-open_tunnel crypto net st addr peer draw connect tunnel syn token w now at
          serves.knows_key read valid size serves.valid serves.id_u32 opened serves.room auth
          serves.reached in
      (
        ap (λ r. r.0) taken,
        new_session tunnel.aead_key w at,
        rw taken (entered st key tunnel.aead_key w at),
        sym same,
        refl,
      )

  -- What the bridge sends down to a session's client, the client with the same key hands to the local
  -- source unchanged.
  pub receive_frame-send_downstream :
      (st st' : BridgeState) (pkt : DownstreamPacket) (addr : SocketAddr) (wire : Bytes)
      (there : Session) (sess : UdpSession) (at : ℕ)
      → pkt.session_key.connection_id < 2 ^ 32
      → get pkt.session_key st.sessions ≡ some there
      → there.aead_key ≡ sess.aead_key
      → send_downstream crypto st pkt ≡ (some (addr, wire), st')
      → receive_frame crypto sess wire at ≡ (some pkt.payload, record sess { last_active = at })
  unfolding receive_frame
  receive_frame-send_downstream st st' pkt addr wire there sess at id known key e =
      let (s, found, _, opened, _) =
        decrypt_frame-send_downstream crypto st st' pkt addr wire pkt.session_key id e in
      let one : s ≡ there = ground arith in
      let mine = rw (one, key) at opened in rw (mine, receive_frame) refl

  -- A client's session and the bridge's session of one connection share the key. Where both have counted
  -- equally far, the frame that the client sends for its next datagram and the frame that the bridge
  -- sends down next are sealed under the same key, the same nonce and the same associated data.
  pub shared_nonce :
      (st st' : BridgeState) (pkt : DownstreamPacket) (addr : SocketAddr) (down up p : Bytes)
      (there : Session) (sess : UdpSession) (at udp : ℕ)
      → get pkt.session_key st.sessions ≡ some there
      → pkt.session_key.connection_id ≡ sess.connection_id
      → there.aead_key ≡ sess.aead_key
      → there.tx_sequence ≡ sess.tx_sequence
      → send_downstream crypto st pkt ≡ (some (addr, down), st')
      → (send_datagram crypto sess p at).0 ≡ some (udp, up)
      → (nonce : Bytes) × (aad : Bytes) × (crypto.aead.encrypt sess.aead_key nonce p aad
          ≡ some (drop 13 up))
        × (crypto.aead.encrypt sess.aead_key nonce pkt.payload aad ≡ some (drop 13 down))
        × (take 13 up ≡ aad)
        × (take 13 down ≡ aad)
  shared_nonce st st' pkt addr down up p there sess at udp known id key count sent_down sent_up =
      let (s, found, _, sealed, _) =
        send_downstream-eq-some crypto st st' pkt addr down sent_down in
      let one : s ≡ there = ground arith in
      let h = data_header sess in
      let same : next_header pkt.session_key there ≡ h = rw (id, count) refl in
      let sealed_down : encrypt_frame crypto.aead sess.aead_key h pkt.payload ≡ ok down =
        rw (one, key, same) at sealed in
      let (sealed_up, _) = send_datagram-eq-some crypto sess p up at udp sent_up in
      (
        derive_nonce h.connection_id h.sequence,
        encode h,
        sealed_body crypto.aead sess.aead_key h p up sealed_up,
        sealed_body crypto.aead sess.aead_key h pkt.payload down sealed_down,
        sealed_front crypto.aead sess.aead_key h p up sealed_up,
        sealed_front crypto.aead sess.aead_key h pkt.payload down sealed_down,
      )
