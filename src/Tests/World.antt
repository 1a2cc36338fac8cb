-- ===== src/Tests/World.antt =====
-- A backend, a bridge, a client and a network, over the toy cryptography.
use lowping.Base.{
  ℕ, ◌≡◌, refl, Bool, true, false, [], ◌∷◌, replicate, Option, none, some, Result, ok, err,
}
use lowping.Base.Bytes.{Bytes}
use lowping.Base.Int.{pos}
use lowping.Base.Eq.{nat_eq}
use lowping.Crypto.Toys.{toy_suite}
use lowping.Net.{v4, SocketAddr}
use lowping.Protocol.Connect.{ConnectRequest, udp}
use lowping.Base.Dict.{Dict}
use lowping.Protocol.License
use lowping.Protocol.License.{LicenseToken}
use lowping.Protocol.Frame.{encrypt_frame}
use lowping.Backend.{AppState, SignupResponse, signup}
use lowping.Bridge.{
  BridgeState, SessionKey, Session, Network, udp_socket, DownstreamPacket, send_downstream,
}
use lowping.Client.{Peer, Draw, OpenedTunnel, UdpSession, open_tunnel, session_of, data_header}

-- What a result holds, once it is known to hold something.
abbrev pub is_ok {ℓ κ} : {E : Type ℓ} {A : Type κ} → Result E A → Bool
is_ok (ok a) = true
is_ok (err e) = false

abbrev pub from_ok {ℓ κ} : {E : Type ℓ} {A : Type κ} → A → Result E A → A
from_ok d (ok a) = a
from_ok d (err e) = d

pub from_ok-eq {ℓ κ} :
    {E : Type ℓ} {A : Type κ} (d : A) (r : Result E A) → is_ok r ≡ true → r ≡ ok (from_ok d r)
from_ok-eq d (ok a) h = refl
from_ok-eq d (err e) h = absurd cc

abbrev pub is_some {ℓ} : {A : Type ℓ} → Option A → Bool
is_some (some a) = true
is_some none = false

abbrev pub from_some {ℓ} : {A : Type ℓ} → A → Option A → A
from_some d (some a) = a
from_some d none = d

pub from_some-eq {ℓ} :
    {A : Type ℓ} (d : A) (o : Option A) → is_some o ≡ true → o ≡ some (from_some d o)
from_some-eq d (some a) h = refl
from_some-eq d none h = absurd cc

abbrev pub listen_addr : SocketAddr
listen_addr = record { ip = v4 (127 ∷ 0 ∷ 0 ∷ 1 ∷ []); port = 9000 }

abbrev pub backend : AppState
backend = record {
  config = record {
    listen = listen_addr;
    backend_seckey_hex = 7 ∷ [];
    bridges = [];
    token_ttl_secs = 3600;
    directory_ttl_secs = 1800;
  };
  signing_key = 7 ∷ [];
  verifying_key = 7 ∷ [];
  next_user_id = 5;
}

abbrev pub no_response : SignupResponse
no_response = record { user_id = 0; license_token = []; expires_at_unix = pos 0 }

-- A signup at the time 1000.
abbrev pub signed_up : SignupResponse × AppState
signed_up = from_some (no_response, backend) (signup toy_suite backend (pos 1000))

abbrev pub bridge : BridgeState
bridge = record {
  sessions = [];
  config = record {
    listen = listen_addr;
    bridge_x25519_seckey_hex = 9 ∷ [];
    backend_ed25519_pubkey_hex = 7 ∷ [];
    allow_any_scope = false;
    max_sessions = 2;
    idle_timeout_secs = 300;
    metrics_listen = none;
  };
  bridge_secret = 9 ∷ [];
  backend_pubkey = 7 ∷ [];
}

abbrev pub network : Network
network = record { tcp_connect = λ a. some 8; udp_connect = λ a. some 8; write = λ w bytes. true }

abbrev pub client_addr : SocketAddr
client_addr = record { ip = v4 (192 ∷ 0 ∷ 2 ∷ 1 ∷ []); port = 40000 }

abbrev pub peer : Peer
peer = record {
  bridge_x25519_pubkey_hex = replicate 32 9;
  license_token = signed_up.0.license_token;
}

abbrev pub draw : Draw
draw = record { secret = 3 ∷ []; connection_id = 77; socket = some 4; sent = true }

abbrev pub connect : ConnectRequest
connect = record { protocol = udp; dest_ip = v4 (10 ∷ 0 ∷ 0 ∷ 1 ∷ []); dest_port = 8080 }

abbrev pub no_tunnel : OpenedTunnel × Bytes
no_tunnel = (record { udp_to_bridge = 0; aead_key = []; connection_id = 0 }, [])

abbrev pub opened : OpenedTunnel × Bytes
opened = from_ok no_tunnel (open_tunnel toy_suite peer draw connect)

abbrev pub payload : Bytes
payload = 1 ∷ 2 ∷ 3 ∷ []

abbrev pub token : LicenseToken
token =
    License.sign toy_suite.ed
      (record { user_id = 5; issued_at = pos 1000; expires_at = pos 4600; scope = 1 }) (7 ∷ [])

abbrev pub no_sessions : Dict ℕ UdpSession
no_sessions = []

-- The first data frame of the tunnel.
abbrev pub first_wire : Bytes
first_wire =
    from_ok [] (
      encrypt_frame toy_suite.aead opened.0.aead_key (data_header (session_of opened.0 50)) payload)

-- A bridge that has the tunnel's session.
abbrev pub busy_session : Session
busy_session = record {
  aead_key = opened.0.aead_key;
  tx_sequence = 9;
  last_active = 40;
  dest_writer = udp_socket 8;
}

abbrev pub busy_key : SessionKey
busy_key = record { client_addr = client_addr; connection_id = 77 }

abbrev pub busy_bridge : BridgeState
busy_bridge = record bridge { sessions = (busy_key, busy_session) ∷ [] }

abbrev pub reply : DownstreamPacket
reply = record { session_key = busy_key; payload = payload }

abbrev pub down : Option (SocketAddr × Bytes) × BridgeState
down = send_downstream toy_suite busy_bridge reply

abbrev pub down_wire : Bytes
down_wire = (from_some (client_addr, []) down.0).1

abbrev pub busy_client : UdpSession
busy_client = record {
  udp_to_bridge = 4;
  aead_key = opened.0.aead_key;
  connection_id = 77;
  tx_sequence = 9;
  last_active = 40;
}
