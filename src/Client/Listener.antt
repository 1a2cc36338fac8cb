-- ===== src/Client/Listener.antt =====
-- crates/gr-client/src/smart.rs: a bridge's listener, which asks the capture where the game meant to send.
use lowping.Base.{ℕ, List, [], Option, none, some, Result, ok, err}
use lowping.Base.Bytes.{Bytes}
use lowping.Base.Eq.{nat_eq}
use lowping.Base.Dict.{Dict, get}
use lowping.Crypto.{Suite}
use lowping.Net.{SocketAddr}
use lowping.Protocol.Connect.{ConnectRequest, udp}
use lowping.Capture.{FlowEntry, flow_origin}
use lowping.Client.{Peer, Draw, OpenedTunnel, TunnelError, UdpSession, open_tunnel, handle_datagram}

-- The flows of the capture, if there is one.
abbrev pub origin_of : Option (Dict ℕ FlowEntry) → ℕ → Option SocketAddr
origin_of none src_port = none
origin_of (some flows) src_port = flow_origin flows src_port

abbrev pub connect_to : SocketAddr → ConnectRequest
connect_to dest = record { protocol = udp; dest_ip = dest.ip; dest_port = dest.port }

module _ (crypto : Suite) where
  -- The `open_tunnel` of smart.rs.
  unfoldable pub open_bridge_tunnel :
      Peer → Draw → SocketAddr → Result TunnelError (OpenedTunnel × Bytes)
  open_bridge_tunnel peer draw dest = open_tunnel crypto peer draw (connect_to dest)

  -- The loop body of `run_bridge_listener`. A source without a session and without a flow is dropped.
  unfoldable pub listen_datagram :
      Option (Dict ℕ FlowEntry)
      → Peer
      → Draw
      → Dict ℕ UdpSession
      → ℕ
      → Bytes
      → ℕ
      → List (ℕ × Bytes) × Dict ℕ UdpSession
  listen_datagram capture peer draw sessions src_port payload at = elim (get src_port sessions) [
    | some sess ↦ handle_datagram crypto sessions src_port none payload at
    | none ↦ elim (origin_of capture src_port) [
      | none ↦ ([], sessions)
      | some orig_dest ↦ elim (open_bridge_tunnel peer draw orig_dest) [
        | err e ↦ ([], sessions)
        | ok opened ↦ handle_datagram crypto sessions src_port (some opened) payload at
      ]
    ]
  ]
