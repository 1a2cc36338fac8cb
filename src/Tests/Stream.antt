-- ===== src/Tests/Stream.antt =====
-- A TCP connection of a rule, there and back.
use lowping.Base.{
  ℕ, ◌≡◌, refl, true, List, [], ◌∷◌, map, All, Option, none, some, ok, arith, replicate,
}
use lowping.Base.Bytes.{Bytes, to_be, from_be}
use lowping.Base.Int.{ℤ, pos, to_u64, of_u64}
use lowping.Base.Dict.{get}
use lowping.Net.{v4}
use lowping.Net.Show.{codes}
use lowping.Crypto.Toys.{toy_suite, seal, tag}
use lowping.Protocol
use lowping.Protocol.Connect
use lowping.Protocol.Connect.{tcp}
use lowping.Protocol.License
use lowping.Protocol.Nonce.{derive_nonce}
use lowping.Protocol.Frame.{encrypt_syn_frame}
use lowping.Protocol.Handshake.{
  pubkey_from_bytes, client_derive_session_key, derive_aead_key, generate_keypair,
}
use lowping.Backend.{signup, issue_user_id}
use lowping.Bridge.{open_dest, tcp_half, drain_dest, key_eq}
use lowping.Client.{OpenedTunnel, open_tunnel}
use lowping.Client.Modes.{Rule}
use lowping.Client.Tcp.{Read, received, read_timed_out, frame}
use lowping.Client.Tcp.Stream.{deliver, Sendable}
use lowping.Client.Connection.{Meets, peer_of, request_of, handle_tcp_local}
use lowping.EndToEnd.{Serves}
use lowping.EndToEnd.Stream.{
  Buffered, Shares, send_all_down, deliver-handle_tcp_local, written-handle_tcp_local,
}
use lowping.Tests.World.{
  signed_up, bridge, network, client_addr, draw, token, no_tunnel, from_ok, from_ok-eq, is_ok,
  busy_bridge, busy_key, busy_session,
}
use lowping.Tests.EndToEnd.{read_token, token-IsValid, token_length, authorised}

abbrev rule : Rule
rule = record {
  listen = client_addr;
  bridge = client_addr;
  bridge_x25519_pubkey_hex = replicate 32 9;
  license_token = signed_up.0.license_token;
  dest_ip = v4 (10 ∷ 0 ∷ 0 ∷ 1 ∷ []);
  dest_port = 8080;
  protocol = codes "tcp";
  udp_idle_secs = 90;
  capture = true;
  capture_dst_port_lo = none;
  capture_dst_port_hi = none;
  capture_dst_ip = none;
}

abbrev reads : List Read
reads = received (1 ∷ 2 ∷ []) true ∷ read_timed_out ∷ received (3 ∷ []) true ∷ received [] true ∷ []

abbrev answers : List (Option Bytes)
answers = some (4 ∷ 5 ∷ []) ∷ some (6 ∷ []) ∷ none ∷ []

abbrev meets : Meets
meets = record {
  draw = draw;
  reads = reads;
  early =
      map (λ wire. frame wire true)
        (send_all_down toy_suite busy_bridge (drain_dest tcp busy_key answers));
  late = [];
}

abbrev tunnel : OpenedTunnel × Bytes
tunnel = from_ok no_tunnel (open_tunnel toy_suite (peer_of rule) draw (request_of rule tcp))

opens : is_ok (open_tunnel toy_suite (peer_of rule) draw (request_of rule tcp)) ≡ true
unfolding open_tunnel signup issue_user_id License.from_string_b64 License.from_bytes
    License.to_bytes License.to_string_b64 License.sign License.encode License.decode
    pubkey_from_bytes client_derive_session_key derive_aead_key generate_keypair encrypt_syn_frame
    Protocol.encode Connect.encode derive_nonce to_be from_be to_u64 of_u64 seal tag
opens = refl

tunnel_opened : open_tunnel toy_suite (peer_of rule) draw (request_of rule tcp) ≡ ok tunnel
tunnel_opened =
    from_ok-eq no_tunnel (open_tunnel toy_suite (peer_of rule) draw (request_of rule tcp)) opens

serves : Serves toy_suite network bridge (peer_of rule) draw (request_of rule tcp) (tcp_half 8)
unfolding open_dest
serves = record {
  knows_key = refl;
  valid = record { octets = refl; octets_bytes = ground arith; port_u16 = omega arith };
  id_u32 = omega arith;
  room = omega arith;
  reached = refl;
}

abbrev clock : ℕ → ℤ × ℕ
clock n = (pos 2000, 60)

seals :
    (key nonce msg aad : Bytes)
    → (ct : Bytes) × (toy_suite.aead.encrypt key nonce msg aad ≡ some ct)
unfolding seal
seals key nonce msg aad = (_, refl)

sendable : All (Sendable toy_suite network client_addr clock) reads
sendable = ((omega arith, refl), (tt, ((omega arith, refl), ((omega arith, refl), tt))))

deliver-handle_tcp_local_example :
    deliver toy_suite network client_addr clock (handle_tcp_local toy_suite rule meets).sent bridge
    ≡ (tcp_half 8, 1 ∷ 2 ∷ []) ∷ (tcp_half 8, 3 ∷ []) ∷ []
deliver-handle_tcp_local_example =
    deliver-handle_tcp_local toy_suite network client_addr clock rule meets token tunnel.0 tunnel.1
      (tcp_half 8) bridge read_token token-IsValid token_length authorised serves tunnel_opened
      seals sendable (λ payload. refl)

shares : Shares toy_suite tunnel.0.aead_key busy_key busy_bridge
unfolding get open_tunnel signup issue_user_id License.from_string_b64 License.from_bytes
    License.to_bytes License.to_string_b64 License.sign License.encode License.decode
    pubkey_from_bytes client_derive_session_key derive_aead_key generate_keypair encrypt_syn_frame
    Protocol.encode Connect.encode derive_nonce to_be from_be to_u64 of_u64 seal tag
shares = (busy_session, refl, refl)

buffered : All Buffered answers
buffered = (omega arith, (omega arith, (tt, tt)))

written-handle_tcp_local_example :
    (handle_tcp_local toy_suite rule meets).written ≡ (4 ∷ 5 ∷ []) ∷ (6 ∷ []) ∷ []
written-handle_tcp_local_example =
    written-handle_tcp_local toy_suite rule meets tunnel.0 tunnel.1 busy_key busy_bridge answers
      tunnel_opened seals (omega arith) shares buffered refl refl
