-- ===== src/Tests/Setup.antt =====
-- The start of a backend and of a bridge with generated keys, and what the backend answers.
use lowping.Base.{ℕ, ◌≡◌, refl, true, List, [], ◌∷◌, some, ok, arith, replicate}
use lowping.Base.Bytes.{Bytes, to_be, from_be}
use lowping.Base.Int.{pos, to_u64, of_u64}
use lowping.Base.Dict.{get}
use lowping.Net.Show.{codes}
use lowping.Crypto.Toys.{toy_suite, seal, tag}
use lowping.Protocol
use lowping.Protocol.Connect
use lowping.Protocol.License
use lowping.Protocol.Nonce.{derive_nonce}
use lowping.Protocol.Frame.{encrypt_syn_frame}
use lowping.Protocol.Handshake.{
  pubkey_from_bytes, secret_from_bytes, client_derive_session_key, derive_aead_key,
  generate_keypair,
}
use lowping.Backend.{BackendConfig, AppState, SignupResponse, new_state, signup, issue_user_id}
use lowping.Backend.Setup.{gen_key as backend_gen_key}
use lowping.Backend.Routes.{get_method, route_eq, Axum}
use lowping.Backend.Routes.Pinned.{Request, get_info, get_bridges, post_signup, other}
use lowping.Bridge.{
  BridgeConfig, BridgeState, open_dest, accepted, handle_packet, register, udp_socket,
}
use lowping.Bridge.Setup.{
  gen_key as bridge_gen_key, set_up, parsed_x25519_secret, parsed_backend_pubkey,
}
use lowping.Client.{Peer, OpenedTunnel, open_tunnel}
use lowping.EndToEnd.{conn_key}
use lowping.EndToEnd.Setup.{gen_key_to_session}
use lowping.Tests.World.{
  backend, bridge, network, client_addr, draw, connect, no_tunnel, no_response, from_ok, from_ok-eq,
  from_some, from_some-eq, is_ok, is_some,
}

abbrev secret : Bytes
secret = replicate 32 7

abbrev bridge_secret : Bytes
bridge_secret = replicate 32 9

abbrev backend_config : BackendConfig
backend_config = record backend.config { backend_seckey_hex = secret }

abbrev bridge_config : BridgeConfig
bridge_config = record bridge.config {
  bridge_x25519_seckey_hex = bridge_secret;
  backend_ed25519_pubkey_hex = secret;
}

abbrev started : AppState
started = from_ok backend (new_state toy_suite backend_config)

starts : is_ok (new_state toy_suite backend_config) ≡ true
unfolding new_state
starts = refl

backend_up : new_state toy_suite backend_config ≡ ok started
backend_up = from_ok-eq backend (new_state toy_suite backend_config) starts

abbrev ready : BridgeState
ready = from_ok bridge (set_up toy_suite (λ key. true) bridge_config true)

sets_up : is_ok (set_up toy_suite (λ key. true) bridge_config true) ≡ true
unfolding set_up parsed_x25519_secret parsed_backend_pubkey secret_from_bytes
sets_up = refl

bridge_up : set_up toy_suite (λ key. true) bridge_config true ≡ ok ready
bridge_up = from_ok-eq bridge (set_up toy_suite (λ key. true) bridge_config true) sets_up

abbrev signed_up : SignupResponse × AppState
signed_up = from_some (no_response, backend) (signup toy_suite started (pos 1000))

signs_up : is_some (signup toy_suite started (pos 1000)) ≡ true
unfolding signup issue_user_id new_state
signs_up = refl

signed : signup toy_suite started (pos 1000) ≡ some signed_up
signed = from_some-eq (no_response, backend) (signup toy_suite started (pos 1000)) signs_up

abbrev peer : Peer
peer = record {
  bridge_x25519_pubkey_hex = (bridge_gen_key toy_suite bridge_secret).1;
  license_token = signed_up.0.license_token;
}

abbrev opened : OpenedTunnel × Bytes
opened = from_ok no_tunnel (open_tunnel toy_suite peer draw connect)

opens : is_ok (open_tunnel toy_suite peer draw connect) ≡ true
unfolding open_tunnel signup issue_user_id new_state bridge_gen_key License.from_string_b64
    License.from_bytes License.to_bytes License.to_string_b64 License.sign License.encode
    License.decode pubkey_from_bytes client_derive_session_key derive_aead_key generate_keypair
    encrypt_syn_frame Protocol.encode Connect.encode derive_nonce to_be from_be to_u64 of_u64 seal
    tag
opens = refl

tunnel_opened : open_tunnel toy_suite peer draw connect ≡ ok opened
tunnel_opened = from_ok-eq no_tunnel (open_tunnel toy_suite peer draw connect) opens

printed_backend : secret ≡ (backend_gen_key toy_suite secret).0
unfolding backend_gen_key
printed_backend = refl

printed_backend_key : secret ≡ (backend_gen_key toy_suite secret).1
unfolding backend_gen_key
printed_backend_key = refl

printed_bridge : bridge_secret ≡ (bridge_gen_key toy_suite bridge_secret).0
unfolding bridge_gen_key generate_keypair
printed_bridge = refl

reached : open_dest network connect ≡ some (udp_socket 8)
unfolding open_dest
reached = refl

gen_key_to_session_example :
    handle_packet toy_suite network ready client_addr opened.1 (pos 2000) 50 ≡ (
      ok accepted,
      register toy_suite ready
          (conn_key client_addr opened.0.connection_id)
          opened.0.aead_key
          (udp_socket 8)
          50,
    )
gen_key_to_session_example =
    gen_key_to_session toy_suite (λ key. true) network backend_config bridge_config secret
      bridge_secret true started signed_up.1 ready 1000 2000 signed_up.0 client_addr peer draw
      connect opened.0 opened.1 (udp_socket 8) 50 printed_backend printed_backend_key printed_bridge
      refl backend_up bridge_up (omega arith) (omega arith) (omega arith) (omega arith) signed refl
      (record { octets = refl; octets_bytes = ground arith; port_u16 = omega arith }) (omega arith)
      reached tunnel_opened

-- axum by its law.
abbrev toy_axum : Axum
toy_axum = record {
  dispatch = λ table r. get r table;
  refusal = λ r. 404;
  dispatch-get = λ table r h e. e;
}

abbrev requests : List (Request × ℕ)
requests =
    (post_signup, 1000)
    ∷ (get_info, 1001)
    ∷ (get_bridges, 1002)
    ∷ (other (record { method = get_method; path = codes "/v2" }), 1003)
    ∷ []
