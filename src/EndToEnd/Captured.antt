-- ===== src/EndToEnd/Captured.antt =====
-- From the game's packet to the game's server: capture, client and bridge.
use lowping.Base.{
  ◌<◌, ◌^◌, ◌≢◌, ℕ, ◌≡◌, refl, ap, sym, ◌∙◌, [], ◌∷◌, true, none, some, ok, arith, ◌==◌,
}
use lowping.Base.Bytes.{Bytes}
use lowping.Base.Int.{ℤ}
use lowping.Base.Eq.{nat_eq}
use lowping.Base.Dict.{Dict, get}
use lowping.Crypto.{Suite}
use lowping.Net.{SocketAddr}
use lowping.Protocol.License
use lowping.Capture.{Protocol, RouteAction, rewrite_to, FlowEntry, process_packet, flow_origin}
use lowping.Capture.Packet.{src_addr, dst_addr}
use lowping.Capture.Nat.{IsTarget, process_packet-outbound}
use lowping.Bridge.{
  Session, open_dest, key_eq, BridgeState, Network, DestWriter, forwarded, handle_packet,
}
use lowping.Client.{Peer, Draw, OpenedTunnel, UdpSession, handle_datagram}
use lowping.Client.Listener.{connect_to, open_bridge_tunnel, listen_datagram}
use lowping.EndToEnd.{conn_key, handle_packet-handle_datagram}

-- A packet that was redirected has left the flow that leads back to its destination.
pub origin_of_captured :
    (resolve : SocketAddr → Protocol → RouteAction) (at : ℕ) (flows flows' : Dict ℕ FlowEntry)
    (pkt out : Bytes)
    → ((d : SocketAddr) (p : Protocol) (a : SocketAddr) → resolve d p ≡ rewrite_to a → IsTarget a)
    → process_packet resolve true at flows pkt ≡ (some out, flows')
    → flow_origin flows' (src_addr pkt).port ≡ some (dst_addr pkt)
origin_of_captured resolve at flows flows' pkt out good e =
    let (_, _, _, _, origin) =
      process_packet-outbound resolve at (src_addr pkt).port flows flows' pkt out good e in
    let same : ((src_addr pkt).port == (src_addr pkt).port) ≡ true = ground arith in
    rw same at origin

module _ (crypto : Suite) where
  pub listen_datagram-new :
      (flows : Dict ℕ FlowEntry) (peer : Peer) (draw : Draw) (sessions : Dict ℕ UdpSession)
      (port : ℕ) (dest : SocketAddr) (tunnel : OpenedTunnel) (syn payload : Bytes) (at : ℕ)
      → get port sessions ≡ none
      → flow_origin flows port ≡ some dest
      → open_bridge_tunnel crypto peer draw dest ≡ ok (tunnel, syn)
      → listen_datagram crypto (some flows) peer draw sessions port payload at
        ≡ handle_datagram crypto sessions port (some (tunnel, syn)) payload at
  unfolding listen_datagram
  listen_datagram-new flows peer draw sessions port dest tunnel syn payload at new origin opened =
      rw (new, listen_datagram, origin, opened) refl

  listen_datagram-known :
      (flows : Dict ℕ FlowEntry) (peer : Peer) (draw : Draw) (sessions : Dict ℕ UdpSession)
      (port : ℕ) (sess : UdpSession) (payload : Bytes) (at : ℕ)
      → get port sessions ≡ some sess
      → listen_datagram crypto (some flows) peer draw sessions port payload at
        ≡ handle_datagram crypto sessions port none payload at
  unfolding listen_datagram
  listen_datagram-known flows peer draw sessions port sess payload at found =
      rw (found, listen_datagram) refl

  -- The game sends from one port to a second server, and the capture records the new destination. But
  -- the listener has a session for the port, so that what it sends for this datagram makes the bridge
  -- write the payload to the destination of that session, whichever the packet was for.
  pub captured_misdelivered :
      (resolve : SocketAddr → Protocol → RouteAction) (captured : ℕ)
      (flows flows' : Dict ℕ FlowEntry) (pkt out : Bytes) (net : Network)
      (sessions : Dict ℕ UdpSession) (peer : Peer) (draw : Draw) (sess : UdpSession)
      (first : SocketAddr) (payload wire : Bytes) (udp sent : ℕ) (st : BridgeState)
      (addr : SocketAddr) (there : Session) (now : ℤ) (at : ℕ)
      → ((d : SocketAddr) (p : Protocol) (a : SocketAddr) → resolve d p ≡ rewrite_to a → IsTarget a)
      → process_packet resolve true captured flows pkt ≡ (some out, flows')
      → get (src_addr pkt).port sessions ≡ some sess
      → sess.connection_id < 2 ^ 32
      → get (conn_key addr sess.connection_id) st.sessions ≡ some there
      → there.aead_key ≡ sess.aead_key
      → open_dest net (connect_to first) ≡ some there.dest_writer
      → first ≢ dst_addr pkt
      → (listen_datagram crypto (some flows') peer draw sessions (src_addr pkt).port payload sent).0
        ≡ (udp, wire) ∷ []
      → net.write there.dest_writer payload ≡ true
      → (flow_origin flows' (src_addr pkt).port ≡ some (dst_addr pkt))
        × (w : DestWriter) × (open_dest net (connect_to first) ≡ some w)
        × ((handle_packet crypto net st addr wire now at).0 ≡ ok (forwarded w payload))
  captured_misdelivered resolve captured flows flows' pkt out net sessions peer draw sess first
        payload wire udp sent st addr there now at good redirected found id known key opened other
        sends written =
      let origin = origin_of_captured resolve captured flows flows' pkt out good redirected in
      let same =
        listen_datagram-known flows' peer draw sessions (src_addr pkt).port sess payload sent
          found in
      let (_, done) =
        handle_packet-handle_datagram crypto net sessions (src_addr pkt).port sess none payload wire
          udp sent st addr there now at found id (ap (λ r. r.0) (sym same) ∙ sends) known key
          written in
      (origin, there.dest_writer, opened, done)
