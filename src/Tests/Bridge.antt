-- ===== src/Tests/Bridge.antt =====
-- The bridge's results in the small world.
use lowping.Base.{
  ◌+◌, ◌≤◌, ◌<◌, ◌≡◌, refl, false, List, [], ◌∷◌, none, some, ok, arith, length, if◌then◌else◌,
}
use lowping.Base.Bytes.{Bytes, IsBytes, to_be, from_be}
use lowping.Base.Int.{pos, to_u64, of_u64}
use lowping.Base.Dict.{get}
use lowping.Crypto.Toys.{toy_suite, seal, tag, open_sealed, body}
use lowping.Protocol
use lowping.Protocol.{Header}
use lowping.Protocol.Connect
use lowping.Protocol.Connect.{ConnectRequest}
use lowping.Protocol.License
use lowping.Protocol.Handshake.{
  pubkey_from_bytes, client_derive_session_key, bridge_derive_session_key, derive_aead_key,
  generate_keypair,
}
use lowping.Protocol.Nonce.{derive_nonce}
use lowping.Protocol.Frame.{
  encrypt_syn_frame, encrypt_frame, decrypt_frame, parse_syn_front, decrypt_syn_payload,
}
use lowping.Backend.{signup, issue_user_id}
use lowping.Bridge.{
  BridgeState, DestWriter, key_eq, key_beq, Session, udp_socket, handle_packet, forwarded,
  forward_data, accept_new_session, check_syn, check_payload, open_dest, register, new_session,
  send_downstream, reap,
}
use lowping.Bridge.Accept.{Opens, Authorised}
use lowping.Bridge.Table.{IsTable, accept_new_session_sound}
use lowping.Bridge.Forward.{handle_packet-forwarded}
use lowping.Bridge.Run.{run, start, run-IsTable, Event, datagram, downstream, tick}
use lowping.Bridge.Reaper.{get-reap, is_idle}
use lowping.Bridge.Races.{Overlap, Reach, here, next, begin, Reach-bounded, racing_accepts_exceed}
use lowping.Client.{open_tunnel, data_header}
use lowping.Tests.World.{
  bridge, connect, network, client_addr, opened, payload, busy_bridge, busy_session, busy_key,
  busy_client, reply, down, down_wire, from_ok,
}

abbrev busy_wire : Bytes
busy_wire =
    from_ok []
      (encrypt_frame toy_suite.aead busy_session.aead_key (data_header busy_client) payload)

abbrev entered : BridgeState
entered = (accept_new_session toy_suite network bridge busy_key opened.1 (pos 2000) 50).1

accepts :
    accept_new_session toy_suite network bridge busy_key opened.1 (pos 2000) 50 ≡ (ok tt, entered)
unfolding accept_new_session check_syn check_payload open_dest register new_session parse_syn_front
    decrypt_syn_payload open_tunnel signup issue_user_id License.from_string_b64 License.from_bytes
    License.to_bytes License.to_string_b64 License.sign License.encode License.decode License.verify
    pubkey_from_bytes client_derive_session_key bridge_derive_session_key derive_aead_key
    generate_keypair encrypt_syn_frame Protocol.encode Protocol.decode Connect.encode Connect.decode
    derive_nonce to_be from_be to_u64 of_u64 seal tag open_sealed body
accepts = refl

accept_new_session_sound_example :
    (k : Bytes) × (c : ConnectRequest) × (w : DestWriter) × (o : Opens toy_suite bridge opened.1 k
      c)
    × Authorised toy_suite bridge (pos 2000) o.token
    × (length bridge.sessions < bridge.config.max_sessions)
    × (open_dest network c ≡ some w)
    × (get busy_key entered.sessions ≡ (
        if key_beq busy_key busy_key
        then some (new_session k w 50)
        else get busy_key bridge.sessions))
accept_new_session_sound_example =
    accept_new_session_sound toy_suite network bridge entered busy_key busy_key opened.1 (pos 2000)
      50 accepts

seals :
    encrypt_frame toy_suite.aead busy_session.aead_key (data_header busy_client) payload
    ≡ ok busy_wire
unfolding encrypt_frame open_tunnel signup issue_user_id License.from_string_b64 License.from_bytes
    License.to_bytes License.to_string_b64 License.sign License.encode License.decode License.verify
    pubkey_from_bytes client_derive_session_key bridge_derive_session_key derive_aead_key
    generate_keypair encrypt_syn_frame Protocol.encode Protocol.decode Connect.encode Connect.decode
    derive_nonce to_be from_be to_u64 of_u64 seal tag open_sealed body
seals = refl

known : get busy_key busy_bridge.sessions ≡ some busy_session
unfolding get
known = refl

wire-IsBytes : IsBytes busy_wire
unfolding encrypt_frame open_tunnel signup issue_user_id License.from_string_b64 License.from_bytes
    License.to_bytes License.to_string_b64 License.sign License.encode License.decode License.verify
    pubkey_from_bytes client_derive_session_key bridge_derive_session_key derive_aead_key
    generate_keypair encrypt_syn_frame Protocol.encode Protocol.decode Connect.encode Connect.decode
    derive_nonce to_be from_be to_u64 of_u64 seal tag open_sealed body
wire-IsBytes = ground arith

forwards :
    (handle_packet toy_suite network busy_bridge client_addr busy_wire (pos 2000) 60).0
    ≡ ok (forwarded (udp_socket 8) payload)
unfolding handle_packet forward_data get encrypt_frame decrypt_frame open_tunnel signup
    issue_user_id License.from_string_b64 License.from_bytes License.to_bytes License.to_string_b64
    License.sign License.encode License.decode License.verify pubkey_from_bytes
    client_derive_session_key bridge_derive_session_key derive_aead_key generate_keypair
    encrypt_syn_frame Protocol.encode Protocol.decode Connect.encode Connect.decode derive_nonce
    to_be from_be to_u64 of_u64 seal tag open_sealed body
forwards = refl

handle_packet-forwarded_example :
    (h : Header) × (sess : Session) × (get
        (record { client_addr = client_addr; connection_id = h.connection_id })
        busy_bridge.sessions
      ≡ some sess)
    × (udp_socket 8 ≡ sess.dest_writer)
    × (encrypt_frame toy_suite.aead sess.aead_key h payload ≡ ok busy_wire)
handle_packet-forwarded_example =
    handle_packet-forwarded toy_suite network busy_bridge client_addr busy_wire payload
      (udp_socket 8) (pos 2000) 60 wire-IsBytes (omega arith) forwards

events : List Event
events =
    datagram network client_addr opened.1 (pos 2000) 50
    ∷ datagram network client_addr busy_wire (pos 2000) 60
    ∷ downstream reply
    ∷ tick (λ k. false) 400
    ∷ []

run-IsTable_example :
    IsTable (run toy_suite (start bridge.config (9 ∷ []) (7 ∷ [])) events)
    × (length (run toy_suite (start bridge.config (9 ∷ []) (7 ∷ [])) events).sessions ≤ 2)
run-IsTable_example = run-IsTable toy_suite bridge.config (9 ∷ []) (7 ∷ []) events

busy-IsTable : IsTable busy_bridge
unfolding get
busy-IsTable = record { unique = (refl, tt); bounded = omega arith }

get-reap_example :
    get busy_key (reap (λ k. false) 400 busy_bridge).sessions
    ≡ elim (get busy_key busy_bridge.sessions) [
      | none ↦ none
      | some sess ↦ if is_idle (λ k. false) 300 400 busy_key sess then none else some sess
    ]
get-reap_example = get-reap (λ k. false) 400 busy_bridge busy_key busy-IsTable

sends_down : send_downstream toy_suite busy_bridge reply ≡ (some (client_addr, down_wire), down.1)
unfolding send_downstream get encrypt_frame Protocol.encode derive_nonce to_be seal tag
sends_down = refl

-- A bridge for one session, and two clients that send one SYN.
abbrev narrow : BridgeState
narrow = record bridge { config = record bridge.config { max_sessions = 1 } }

abbrev checked : Bytes × ConnectRequest
checked = from_ok ([], connect) (check_syn toy_suite narrow opened.1 (pos 2000))

checks : check_syn toy_suite narrow opened.1 (pos 2000) ≡ ok checked
unfolding check_syn check_payload parse_syn_front decrypt_syn_payload open_tunnel signup
    issue_user_id License.from_string_b64 License.from_bytes License.to_bytes License.to_string_b64
    License.sign License.encode License.decode License.verify pubkey_from_bytes
    client_derive_session_key bridge_derive_session_key derive_aead_key generate_keypair
    encrypt_syn_frame Protocol.encode Protocol.decode Connect.encode Connect.decode derive_nonce
    to_be from_be to_u64 of_u64 seal tag open_sealed body
checks = refl

reached : open_dest network checked.1 ≡ some (udp_socket 8)
unfolding open_dest check_syn check_payload parse_syn_front decrypt_syn_payload open_tunnel signup
    issue_user_id License.from_string_b64 License.from_bytes License.to_bytes License.to_string_b64
    License.sign License.encode License.decode License.verify pubkey_from_bytes
    client_derive_session_key bridge_derive_session_key derive_aead_key generate_keypair
    encrypt_syn_frame Protocol.encode Protocol.decode Connect.encode Connect.decode derive_nonce
    to_be from_be to_u64 of_u64 seal tag open_sealed body
reached = refl

racing_accepts_exceed_example :
    (o : Overlap) × Reach toy_suite 2 (record { state = narrow; pending = [] }) o
    × (1 < length o.state.sessions)
racing_accepts_exceed_example =
    racing_accepts_exceed toy_suite narrow busy_key (record busy_key { connection_id = 78 })
      opened.1 opened.1 (pos 2000) checked.0 checked.0 checked.1 checked.1 network (udp_socket 8)
      (udp_socket 8) 50 refl checks checks reached reached (unfold get in refl) (unfold get in refl)
      refl

abbrev waiting : Overlap
waiting = record {
  state = narrow;
  pending = record { key = busy_key; aead_key = checked.0; connect = checked.1 } ∷ [];
}

few : 0 < 3
few = omega arith

Reach-bounded_example : length waiting.state.sessions + 1 ≤ 1 + 3
Reach-bounded_example =
    Reach-bounded toy_suite 3 narrow waiting (omega arith) (omega arith) refl
      (next here (begin _ busy_key opened.1 (pos 2000) checked.0 checked.1 checks few))
