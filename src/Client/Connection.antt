-- ===== src/Client/Connection.antt =====
-- crates/gr-client/src/forwarder.rs: the TCP path from the listener on: `run_tcp_rule` and
-- `handle_tcp_local`. What the listener and the sockets answer are lists of events.
use lowping.Base.{Bool, List, [], ◌∷◌, ◌++◌, Result, ok, err, Option, none, some, if◌then◌else◌}
use lowping.Base.Bytes.{Bytes}
use lowping.Crypto.{Suite}
use lowping.Protocol.Connect.{ConnectRequest, TransportProtocol, tcp}
use lowping.Client.{Peer, Draw, TunnelError, socket_failed, open_tunnel}
use lowping.Client.Modes.{Rule}
use lowping.Client.Tcp.{Read, Recv, forward_stream, relay_responses}

-- What `open_tunnel` of forwarder.rs takes from a rule.
abbrev pub peer_of : Rule → Peer
peer_of rule = record {
  bridge_x25519_pubkey_hex = rule.bridge_x25519_pubkey_hex;
  license_token = rule.license_token;
}

abbrev pub request_of : Rule → TransportProtocol → ConnectRequest
request_of rule proto = record {
  protocol = proto;
  dest_ip = rule.dest_ip;
  dest_port = rule.dest_port;
}

-- What a local connection meets: the answers while its tunnel is opened, the reads of its socket, and
-- the datagrams from the bridge before and after the loop over the reads has ended.
pub record Meets : Type 0 where
  pub draw : Draw
  pub reads : List Read
  pub early : List Recv
  pub late : List Recv

-- What it did: the datagrams to the bridge, the writes to the local socket, and how its task ended.
pub record Connection : Type 0 where
  pub sent : List Bytes
  pub written : List Bytes
  pub end : Result TunnelError (Unit {0})

-- The receiving task is aborted behind the loop; an error that leaves the loop does not come there.
abbrev pub received_by : Result TunnelError (Unit {0}) → Meets → List Recv
received_by (ok u) m = m.early
received_by (err e) m = m.early ++ m.late

module _ (crypto : Suite) where
  unfoldable pub handle_tcp_local : Rule → Meets → Connection
  handle_tcp_local rule m = elim (open_tunnel crypto (peer_of rule) m.draw (request_of rule tcp)) [
    | err e ↦ record { sent = []; written = []; end = err e }
    | ok (tunnel, syn) ↦
        let (frames, end) = forward_stream crypto tunnel 0 m.reads in
        record {
          sent = syn ∷ frames;
          written = (relay_responses crypto tunnel (received_by end m)).0;
          end = end;
        }
  ]

  -- The loop over `accept`: a connection is a task of its own, and its error ends no other; an error of
  -- the listener ends the rule, but not the tasks.
  unfoldable pub accept_loop :
      Rule → List (Option Meets) → List Connection × Result TunnelError (Unit {0})
  accept_loop rule [] = ([], ok tt)
  accept_loop rule (none ∷ accepts) = ([], err socket_failed)
  accept_loop rule (some m ∷ accepts) =
      let (connections, end) = accept_loop rule accepts in
      (handle_tcp_local rule m ∷ connections, end)

  unfoldable pub run_tcp_rule :
      Rule → Bool → List (Option Meets) → List Connection × Result TunnelError (Unit {0})
  run_tcp_rule rule bound accepts =
      if bound then accept_loop rule accepts else ([], err socket_failed)
