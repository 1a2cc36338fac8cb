-- ===== src/Client/Tcp.antt =====
-- crates/gr-client/src/forwarder.rs: the TCP path, one local connection on one tunnel. What the local
-- socket, the tunnel's socket and the writes answer are lists of events; a timeout is one of them.
pub mod Stream
use lowping.Base.{ℕ, ◌+◌, ◌%◌, ◌^◌, ◌≡◌, Bool, List, [], ◌∷◌, Result, ok, err, if◌then◌else◌}
use lowping.Base.Bytes.{Bytes}
use lowping.Crypto.{Suite}
use lowping.Protocol.{Header, proto_version}
use lowping.Protocol.Flags
use lowping.Protocol.Frame.{encrypt_frame, decrypt_frame}
use lowping.Client.{OpenedTunnel, TunnelError, protocol, socket_failed}

-- A read of the local socket into a buffer of `MAX_PAYLOAD_LEN` bytes, with the answer of the send that
-- follows it. A read of nothing is the end of the stream.
pub data Read : Type 0 where
  received : Bytes → Bool → Read
  read_failed read_timed_out : Read

-- A datagram from the bridge, with the answer of the write to the local socket.
pub data Recv : Type 0 where
  frame : Bytes → Bool → Recv
  recv_failed recv_timed_out : Recv

abbrev pub tcp_header : OpenedTunnel → ℕ → Header
tcp_header tunnel tx_sequence = record {
  version = proto_version;
  flags = Flags.empty;
  connection_id = tunnel.connection_id;
  sequence = tx_sequence;
}

module _ (crypto : Suite) where
  open crypto use {aead}

  -- The loop of `handle_tcp_local`: the frames sent, and how it ends. Where the events end, it waits.
  unfoldable pub forward_stream :
      OpenedTunnel → ℕ → List Read → List Bytes × Result TunnelError (Unit {0})
  forward_stream tunnel tx_sequence [] = ([], ok tt)
  forward_stream tunnel tx_sequence (read_failed ∷ reads) = ([], ok tt)
  forward_stream tunnel tx_sequence (read_timed_out ∷ reads) =
      forward_stream tunnel tx_sequence reads
  forward_stream tunnel tx_sequence (received [] sent ∷ reads) = ([], ok tt)
  forward_stream tunnel tx_sequence (received (b ∷ bs) sent ∷ reads) =
      let seq = (tx_sequence + 1) % 2 ^ 64 in
      let (frames, end) = forward_stream tunnel seq reads in
      elim (encrypt_frame aead tunnel.aead_key (tcp_header tunnel seq) (b ∷ bs)) [
        | err e ↦ ([], err (protocol e))
        | ok wire ↦ if sent then (wire ∷ frames, end) else ([], err socket_failed)
      ]

  -- The task that receives: what is written to the local socket. A frame that does not open is dropped.
  unfoldable pub relay_responses :
      OpenedTunnel → List Recv → List Bytes × Result TunnelError (Unit {0})
  relay_responses tunnel [] = ([], ok tt)
  relay_responses tunnel (recv_failed ∷ recvs) = ([], err socket_failed)
  relay_responses tunnel (recv_timed_out ∷ recvs) = relay_responses tunnel recvs
  relay_responses tunnel (frame wire written ∷ recvs) =
      let (payloads, end) = relay_responses tunnel recvs in
      elim (decrypt_frame aead tunnel.aead_key wire) [
        | err e ↦ (payloads, end)
        | ok (h, payload) ↦ if written then (payload ∷ payloads, end) else ([], ok tt)
      ]
