-- ===== src/Tests/EndToEnd.antt =====
-- From the signup to the destination, once.
use lowping.Base.{◌≡◌, refl, true, [], ◌∷◌, some, ok, arith, length, take, drop, inr}
use lowping.Base.Int.{pos}
use lowping.Crypto.Toys.{toy_suite, seal, tag}
use lowping.Protocol
use lowping.Protocol.Connect
use lowping.Protocol.License
use lowping.Protocol.License.{from_string_b64}
use lowping.Protocol.Handshake.{
  pubkey_from_bytes, client_derive_session_key, derive_aead_key, generate_keypair,
}
use lowping.Protocol.Nonce.{derive_nonce}
use lowping.Protocol.Frame.{encrypt_syn_frame, encrypt_frame}
use lowping.Base.Bytes.{to_be, from_be}
use lowping.Base.Int.{to_u64, of_u64}
use lowping.Backend.{signup, issue_user_id}
use lowping.Bridge.{
  DestWriter, open_dest, accepted, udp_socket, handle_packet, forwarded, Session, key_eq,
  send_downstream,
}
use lowping.Client.{
  UdpSession, data_header, open_tunnel, handle_datagram, send_datagram, receive_frame,
}
use lowping.Base.{◌≢◌, ℕ, ◌/◌, ◌%◌, ◌++◌, ap, Option, replicate}
use lowping.Base.Bytes.{Bytes}
use lowping.Base.Dict.{Dict, insert}
use lowping.Base.Patch.{patch}
use lowping.Net.{v4, SocketAddr}
use lowping.Capture.{
  flow_origin, Protocol, RouteAction, rewrite_to, FlowEntry, process_packet, process_outbound,
  parse_packet,
}
use lowping.Capture.Packet.{src_addr, dst_addr}
use lowping.Capture.Nat.{IsTarget}
use lowping.Client.Listener.{connect_to, listen_datagram}
use lowping.EndToEnd.Captured.{captured_misdelivered}
use lowping.EndToEnd.{conn_key, Serves, shared_nonce, replayed_syn, receive_frame-send_downstream}
use lowping.Tests.World.{
  backend, signed_up, no_response, bridge, network, client_addr, peer, draw, connect, no_tunnel,
  opened, from_ok, from_some, from_ok-eq, from_some-eq, is_ok, is_some, token, busy_session,
  busy_bridge, reply, down, down_wire, busy_client, payload,
}
use lowping.Base.Dict.{get}
use lowping.Base.Eq.{nat_eq}
use lowping.Bridge.Accept.{Authorised}

signs_up : is_some (signup toy_suite backend (pos 1000)) ≡ true
unfolding signup issue_user_id
signs_up = refl

signed : signup toy_suite backend (pos 1000) ≡ some signed_up
signed = from_some-eq (no_response, backend) (signup toy_suite backend (pos 1000)) signs_up

opens : is_ok (open_tunnel toy_suite peer draw connect) ≡ true
unfolding open_tunnel signup issue_user_id License.from_string_b64 License.from_bytes
    License.to_bytes License.to_string_b64 License.sign License.encode License.decode
    pubkey_from_bytes client_derive_session_key derive_aead_key generate_keypair encrypt_syn_frame
    Protocol.encode Connect.encode derive_nonce to_be from_be to_u64 of_u64 seal tag
opens = refl

tunnel_opened : open_tunnel toy_suite peer draw connect ≡ ok opened
tunnel_opened = from_ok-eq no_tunnel (open_tunnel toy_suite peer draw connect) opens

-- The token in its text, and the window.
pub read_token : from_string_b64 toy_suite.b64 peer.license_token ≡ ok token
unfolding signup issue_user_id License.from_string_b64 License.from_bytes License.to_bytes
    License.to_string_b64 License.sign License.encode License.decode to_be from_be to_u64 of_u64
read_token = refl

pub token-IsValid : License.IsValid token.payload
unfolding License.sign
token-IsValid = record {
  user_u32 = omega arith;
  issued_i64 = ground arith;
  expires_i64 = ground arith;
  scope_u32 = omega arith;
}

pub token_length : length token.signature ≡ 64
unfolding License.sign
token_length = refl

pub authorised : Authorised toy_suite bridge (pos 2000) token
unfolding License.sign License.encode to_be to_u64
authorised = record {
  signed = refl;
  issued = ground arith;
  unexpired = ground arith;
  scoped = inr (ground arith);
}

busy-Serves : Serves toy_suite network busy_bridge peer draw connect (udp_socket 8)
unfolding open_dest
busy-Serves = record {
  knows_key = refl;
  valid = record { octets = refl; octets_bytes = ground arith; port_u16 = omega arith };
  id_u32 = omega arith;
  room = omega arith;
  reached = refl;
}

has_session :
    get (conn_key client_addr opened.0.connection_id) busy_bridge.sessions ≡ some busy_session
unfolding get open_tunnel signup issue_user_id License.from_string_b64 License.from_bytes
    License.to_bytes License.to_string_b64 License.sign License.encode License.decode
    pubkey_from_bytes client_derive_session_key derive_aead_key generate_keypair encrypt_syn_frame
    Protocol.encode Connect.encode derive_nonce to_be from_be to_u64 of_u64 seal tag
has_session = refl

busy-Authorised : Authorised toy_suite busy_bridge (pos 2000) token
unfolding License.sign License.encode to_be to_u64
busy-Authorised = record {
  signed = refl;
  issued = ground arith;
  unexpired = ground arith;
  scoped = inr (ground arith);
}

replayed_syn_example :
    ((handle_packet toy_suite network busy_bridge client_addr opened.1 (pos 2000) 60).0
      ≡ ok accepted)
    × (new : Session) × (get
          (conn_key client_addr opened.0.connection_id)
          (handle_packet toy_suite network busy_bridge client_addr opened.1
            (pos 2000)
            60).1.sessions
        ≡ some new)
    × (new.aead_key ≡ busy_session.aead_key)
    × (new.tx_sequence ≡ 0)
replayed_syn_example =
    replayed_syn toy_suite network busy_bridge client_addr peer draw connect opened.0 opened.1 token
      (udp_socket 8) busy_session (pos 2000) 60 read_token token-IsValid token_length
      busy-Authorised busy-Serves tunnel_opened has_session refl

sends_down : send_downstream toy_suite busy_bridge reply ≡ (some (client_addr, down_wire), down.1)
unfolding send_downstream get encrypt_frame Protocol.encode derive_nonce to_be seal tag
sends_down = refl

known_reply : get reply.session_key busy_bridge.sessions ≡ some busy_session
unfolding get
known_reply = refl

receive_frame-send_downstream_example :
    receive_frame toy_suite busy_client down_wire 70
    ≡ (some payload, record busy_client { last_active = 70 })
receive_frame-send_downstream_example =
    receive_frame-send_downstream toy_suite busy_bridge down.1 reply client_addr down_wire
      busy_session busy_client 70 (omega arith) known_reply refl sends_down

-- A client that has sent as many frames as the bridge.
abbrev even_client : UdpSession
even_client = record busy_client { tx_sequence = busy_session.tx_sequence }

abbrev upstream : Option (ℕ × Bytes)
upstream = (send_datagram toy_suite even_client payload 70).0

abbrev up_wire : Bytes
up_wire = (from_some (0, []) upstream).1

sends_up : upstream ≡ some (4, up_wire)
unfolding send_datagram encrypt_frame open_tunnel signup issue_user_id License.from_string_b64
    License.from_bytes License.to_bytes License.to_string_b64 License.sign License.encode
    License.decode pubkey_from_bytes client_derive_session_key derive_aead_key generate_keypair
    encrypt_syn_frame Protocol.encode Connect.encode derive_nonce to_be from_be to_u64 of_u64 seal
    tag
sends_up = refl

shared_nonce_example :
    (nonce : Bytes) × (aad : Bytes) × (toy_suite.aead.encrypt even_client.aead_key nonce payload aad
      ≡ some (drop 13 up_wire))
    × (toy_suite.aead.encrypt even_client.aead_key nonce payload aad ≡ some (drop 13 down_wire))
    × (take 13 up_wire ≡ aad)
    × (take 13 down_wire ≡ aad)
shared_nonce_example =
    shared_nonce toy_suite busy_bridge down.1 reply client_addr down_wire up_wire payload
      busy_session even_client 70 4 known_reply refl refl refl sends_down sends_up

-- The game's packet to the destination of the request, redirected to a listener.
abbrev game_packet : Bytes
game_packet =
    (0x45 ∷ replicate 8 0)
    ++ (17 ∷ 0 ∷ 0 ∷ 192 ∷ 168 ∷ 0 ∷ 2 ∷ 10 ∷ 0 ∷ 0 ∷ 1 ∷ [])
    ++ (5555 / 256 ∷ 5555 % 256 ∷ 8080 / 256 ∷ 8080 % 256 ∷ 0 ∷ 8 ∷ 0 ∷ 0 ∷ [])

abbrev listener : SocketAddr
listener = record { ip = v4 (127 ∷ 0 ∷ 0 ∷ 1 ∷ []); port = 9700 }

abbrev redirect : SocketAddr → Protocol → RouteAction
redirect d p = rewrite_to listener

abbrev no_flows : Dict ℕ FlowEntry
no_flows = []

abbrev captured : Option Bytes × Dict ℕ FlowEntry
captured = process_packet redirect true 40 no_flows game_packet

listener-IsTarget :
    (d : SocketAddr) (p : Protocol) (a : SocketAddr) → redirect d p ≡ rewrite_to a → IsTarget a
listener-IsTarget d p a e = ground arith

-- The same port of the game, and a second server.
abbrev second_packet : Bytes
second_packet =
    (0x45 ∷ replicate 8 0)
    ++ (17 ∷ 0 ∷ 0 ∷ 192 ∷ 168 ∷ 0 ∷ 2 ∷ 1 ∷ 1 ∷ 1 ∷ 1 ∷ [])
    ++ (5555 / 256 ∷ 5555 % 256 ∷ 443 / 256 ∷ 443 % 256 ∷ 0 ∷ 8 ∷ 0 ∷ 0 ∷ [])

abbrev recaptured : Option Bytes × Dict ℕ FlowEntry
recaptured = process_packet redirect true 41 captured.1 second_packet

recaptures :
    process_packet redirect true 41 captured.1 second_packet
    ≡ (some (from_some [] recaptured.0), recaptured.1)
unfolding process_packet process_outbound parse_packet patch to_be from_be insert
recaptures = refl

abbrev one_session : Dict ℕ UdpSession
one_session = (5555, busy_client) ∷ []

abbrev stale_wire : Bytes
stale_wire =
    from_ok [] (encrypt_frame toy_suite.aead busy_client.aead_key (data_header busy_client) payload)

session_found : get (src_addr second_packet).port one_session ≡ some busy_client
unfolding get from_be
session_found = refl

key_found : get (conn_key client_addr 77) busy_bridge.sessions ≡ some busy_session
unfolding get
key_found = refl

first_reached : open_dest network (connect_to (dst_addr game_packet)) ≡ some (udp_socket 8)
unfolding open_dest
first_reached = refl

two_servers : dst_addr game_packet ≢ dst_addr second_packet
unfolding from_be
two_servers same = let ports : ◌≡◌ {A = ℕ} 8080 443 = ap (λ a. a.port) same in omega arith

sends_stale :
    (listen_datagram toy_suite
      (some recaptured.1)
      peer
      draw
      one_session
      (src_addr second_packet).port
      payload
      60).0
    ≡ (4, stale_wire) ∷ []
unfolding listen_datagram handle_datagram send_datagram get open_tunnel signup issue_user_id
    License.from_string_b64 License.from_bytes License.to_bytes License.to_string_b64 License.sign
    License.encode License.decode pubkey_from_bytes client_derive_session_key derive_aead_key
    generate_keypair encrypt_syn_frame encrypt_frame Protocol.encode Connect.encode derive_nonce
    to_be from_be to_u64 of_u64 seal tag
sends_stale = refl

captured_misdelivered_example :
    (flow_origin recaptured.1 (src_addr second_packet).port ≡ some (dst_addr second_packet))
    × (w : DestWriter) × (open_dest network (connect_to (dst_addr game_packet)) ≡ some w)
    × ((handle_packet toy_suite network busy_bridge client_addr stale_wire (pos 2000) 60).0
        ≡ ok (forwarded w payload))
captured_misdelivered_example =
    captured_misdelivered toy_suite redirect 41 captured.1 recaptured.1 second_packet
      (from_some [] recaptured.0) network one_session peer draw busy_client (dst_addr game_packet)
      payload stale_wire 4 60 busy_bridge client_addr busy_session (pos 2000) 60 listener-IsTarget
      recaptures session_found (omega arith) key_found refl first_reached two_servers sends_stale
      refl
