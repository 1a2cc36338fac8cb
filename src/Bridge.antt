-- ===== src/Bridge.antt =====
-- crates/gr-bridge/src: the relay's state and its handlers. A handler takes the state and returns its
-- result with the state after it, which is also the state after an error. What the network answers
-- is the argument `net`, the clocks are the arguments `now` (Unix time) and `at` (monotonic seconds).
pub mod Accept
pub mod Table
pub mod Run
pub mod Setup
pub mod Forward
pub mod Downstream
pub mod Reaper
pub mod Races
use Prim.Native.Nat.{bit_and}
use lowping.Base.{
  ℕ, ◌+◌, ◌%◌, ◌^◌, ◌≡◌, Bool, true, false, ◌&&◌, not, List, [], ◌∷◌, length, take, drop, Option,
  none, some, Result, ok, err, bail_if, map_err, ◌>>=◌, ◌>>◌, ◌==◌, ltb, leb, if◌then◌else◌, ◌↔◌,
  arith,
}
use lowping.Base.Bytes.{Bytes}
use lowping.Base.Int.{ℤ}
use lowping.Base.Eq.{Eq}
use lowping.Base.Dict.{Dict, get, insert, remove}
use lowping.Crypto.{Suite}
use lowping.Net.{SocketAddr, addr_eq, addr_beq, addr_beq_iff}
use lowping.Protocol.{Header, ProtocolError, proto_version, max_payload_len, decode}
use lowping.Protocol.Flags
use lowping.Protocol.Frame.{encrypt_frame, decrypt_frame, parse_syn_front, decrypt_syn_payload}
use lowping.Protocol.Connect
use lowping.Protocol.Connect.{ConnectRequest, TransportProtocol, tcp, udp}
use lowping.Protocol.Handshake.{HandshakeError, pubkey_from_bytes, bridge_derive_session_key}
use lowping.Protocol.License
use lowping.Protocol.License.{LicenseError, token_len, from_bytes, verify}

pub record SessionKey : Type 0 where
  pub client_addr : SocketAddr
  pub connection_id : ℕ

abbrev pub key_beq : SessionKey → SessionKey → Bool
key_beq a b = addr_beq a.client_addr b.client_addr && a.connection_id == b.connection_id

pub key_beq_iff : (a b : SessionKey) → (key_beq a b ≡ true) ↔ (a ≡ b)
key_beq_iff a b = ground (arith, addr_beq_iff a.client_addr b.client_addr)

instance abbrev pub key_eq : Eq SessionKey
key_eq = record { beq = key_beq; beq_iff = key_beq_iff }

-- The write half of a destination socket, by the operating system's handle.
pub data DestWriter : Type 0 where
  tcp_half : ℕ → DestWriter
  udp_socket : ℕ → DestWriter

pub record Session : Type 0 where
  pub aead_key : Bytes
  pub tx_sequence : ℕ
  pub last_active : ℕ
  pub dest_writer : DestWriter

-- `Session::new`, at a time of the monotonic clock
unfoldable pub new_session : Bytes → DestWriter → ℕ → Session
new_session aead_key dest_writer at = record {
  aead_key = aead_key;
  tx_sequence = 0;
  last_active = at;
  dest_writer = dest_writer;
}

pub record BridgeConfig : Type 0 where
  pub listen : SocketAddr
  pub bridge_x25519_seckey_hex : Bytes
  pub backend_ed25519_pubkey_hex : Bytes
  pub allow_any_scope : Bool
  pub max_sessions : ℕ
  pub idle_timeout_secs : ℕ
  pub metrics_listen : Option SocketAddr

pub record BridgeState : Type 0 where
  pub sessions : Dict SessionKey Session
  pub config : BridgeConfig
  pub bridge_secret : Bytes
  pub backend_pubkey : Bytes

pub data BridgeError : Type 0 where
  protocol : ProtocolError → BridgeError
  handshake : HandshakeError → BridgeError
  license : LicenseError → BridgeError
  bad_version : ℕ → BridgeError
  table_full : BridgeError
  syn_too_short : BridgeError
  missing_scope : BridgeError
  open_failed : BridgeError
  no_session : BridgeError
  write_failed : BridgeError

-- What the network answers to one handler: handles of opened sockets, and whether a write succeeds.
-- A connection that times out is `none`.
pub record Network : Type 0 where
  pub tcp_connect : SocketAddr → Option ℕ
  pub udp_connect : SocketAddr → Option ℕ
  pub write : DestWriter → Bytes → Bool

unfoldable pub open_dest : Network → ConnectRequest → Option DestWriter
open_dest net c = elim c.protocol [
  | tcp ↦ elim (net.tcp_connect (record { ip = c.dest_ip; port = c.dest_port })) [
    | none ↦ none
    | some handle ↦ some (tcp_half handle)
  ]
  | udp ↦ elim (net.udp_connect (record { ip = c.dest_ip; port = c.dest_port })) [
    | none ↦ none
    | some handle ↦ some (udp_socket handle)
  ]
]

-- What a datagram did: it opened a session, or its payload went to a destination.
pub data Handled : Type 0 where
  accepted : Handled
  forwarded : DestWriter → Bytes → Handled

abbrev pub as_accepted :
    Result BridgeError (Unit {0}) × BridgeState → Result BridgeError Handled × BridgeState
as_accepted (ok u, st) = (ok accepted, st)
as_accepted (err e, st) = (err e, st)

abbrev pub as_forwarded :
    Result BridgeError (DestWriter × Bytes) × BridgeState → Result BridgeError Handled × BridgeState
as_forwarded (ok (w, payload), st) = (ok (forwarded w payload), st)
as_forwarded (err e, st) = (err e, st)

pub record DownstreamPacket : Type 0 where
  pub session_key : SessionKey
  pub payload : Bytes

-- `drain_dest`: what successive reads of a destination socket queue for the client. `none` is a read
-- error; a TCP read of nothing is the end. The buffer holds `max_payload_len` bytes.
unfoldable pub drain_dest :
    TransportProtocol → SessionKey → List (Option Bytes) → List DownstreamPacket
drain_dest kind key [] = []
drain_dest kind key (none ∷ reads) = []
drain_dest tcp key (some [] ∷ reads) = []
drain_dest tcp key (some (b ∷ bs) ∷ reads) =
    record { session_key = key; payload = take max_payload_len (b ∷ bs) } ∷ drain_dest tcp key reads
drain_dest udp key (some datagram ∷ reads) =
    record { session_key = key; payload = take max_payload_len datagram } ∷ drain_dest udp key reads

-- `idle_reaper`, one tick: the keys of the sessions that nobody holds and that were last active before
-- the cutoff, and their removal.
unfoldable pub idle_keys : (SessionKey → Bool) → ℕ → ℕ → Dict SessionKey Session → List SessionKey
idle_keys locked idle at [] = []
idle_keys locked idle at ((key, sess) ∷ rest) =
    if not (locked key) && ltb (sess.last_active + idle) at
    then key ∷ idle_keys locked idle at rest
    else idle_keys locked idle at rest

unfoldable pub remove_all : List SessionKey → Dict SessionKey Session → Dict SessionKey Session
remove_all [] m = m
remove_all (k ∷ ks) m = remove_all ks (remove k m)

-- `at` is the time, and the source takes the idle time from it: `Instant` panics there on a clock that
-- has not run for so long, which is left out.
unfoldable pub reap : (SessionKey → Bool) → ℕ → BridgeState → BridgeState
unfolding idle_keys remove_all
reap locked at st = record st {
  sessions = remove_all (idle_keys locked st.config.idle_timeout_secs at st.sessions) st.sessions;
}

module _ (crypto : Suite) where
  -- `accept_new_session` on the decrypted payload: the license and the request in it.
  unfoldable pub check_payload : BridgeState → Bytes → ℤ → Result BridgeError ConnectRequest
  check_payload st inner now = do
    bail_if (ltb (length inner) (token_len + 4)) syn_too_short
    token ← map_err license (from_bytes (take token_len inner))
    map_err license (verify crypto.ed token st.backend_pubkey now)
    bail_if (not st.config.allow_any_scope && bit_and token.payload.scope 1 == 0) missing_scope
    map_err protocol (Connect.decode (drop token_len inner))

  -- `accept_new_session` up to the await on `open_dest`: every check, and what it yields.
  unfoldable pub check_syn : BridgeState → Bytes → ℤ → Result BridgeError (Bytes × ConnectRequest)
  check_syn st pkt now = do
    bail_if (leb st.config.max_sessions (length st.sessions)) table_full
    (h, client_pk_bytes) ← map_err protocol (parse_syn_front pkt)
    client_pk ← map_err handshake (pubkey_from_bytes client_pk_bytes)
    let aead_key = bridge_derive_session_key crypto.ecdh st.bridge_secret client_pk
    inner ← map_err protocol (decrypt_syn_payload crypto.aead aead_key pkt)
    connect ← check_payload st inner now
    ok (aead_key, connect)

  -- The rest of it: the session enters the table in the place of any that has the key.
  unfoldable pub register : BridgeState → SessionKey → Bytes → DestWriter → ℕ → BridgeState
  register st key aead_key writer at = record st {
    sessions = insert key (new_session aead_key writer at) st.sessions;
  }

  unfoldable pub accept_new_session :
      Network
      → BridgeState
      → SessionKey
      → Bytes
      → ℤ
      → ℕ
      → Result BridgeError (Unit {0}) × BridgeState
  accept_new_session net st key pkt now at = elim (check_syn st pkt now) [
    | err e ↦ (err e, st)
    | ok (aead_key, connect) ↦ elim (open_dest net connect) [
      | none ↦ (err open_failed, st)
      | some writer ↦ (ok tt, register st key aead_key writer at)
    ]
  ]

  -- The session's clock is set before the write, so also where the write fails. The result is what
  -- was written, and where.
  unfoldable pub forward_data :
      Network
      → BridgeState
      → SessionKey
      → Bytes
      → ℕ
      → Result BridgeError (DestWriter × Bytes) × BridgeState
  forward_data net st key pkt at = elim (get key st.sessions) [
    | none ↦ (err no_session, st)
    | some sess ↦ elim (decrypt_frame crypto.aead sess.aead_key pkt) [
      | err e ↦ (err (protocol e), st)
      | ok (h, payload) ↦
          let st' = record st {
            sessions = insert key (record sess { last_active = at }) st.sessions;
          } in
          if net.write sess.dest_writer payload
          then (ok (sess.dest_writer, payload), st')
          else (err write_failed, st')
    ]
  ]

  -- `handle_packet`: the dispatch on the SYN flag.
  unfoldable pub handle_packet :
      Network → BridgeState → SocketAddr → Bytes → ℤ → ℕ → Result BridgeError Handled × BridgeState
  handle_packet net st peer pkt now at = elim (decode pkt) [
    | err e ↦ (err (protocol e), st)
    | ok header ↦
        let key : SessionKey = record {
          client_addr = peer;
          connection_id = header.connection_id;
        } in
        if not (header.version == proto_version)
        then (err (bad_version header.version), st)
        else if Flags.contains header.flags Flags.syn
        then as_accepted (accept_new_session net st key pkt now at)
        else as_forwarded (forward_data net st key pkt at)
  ]

  -- `downstream_sender`, one packet: the counter moves also where encryption fails. The result is the
  -- datagram and its receiver.
  unfoldable pub send_downstream :
      BridgeState → DownstreamPacket → Option (SocketAddr × Bytes) × BridgeState
  send_downstream st pkt = elim (get pkt.session_key st.sessions) [
    | none ↦ (none, st)
    | some sess ↦
        let seq = (sess.tx_sequence + 1) % 2 ^ 64 in
        let st' = record st {
          sessions = insert pkt.session_key (record sess { tx_sequence = seq }) st.sessions;
        } in
        let header : Header = record {
          version = proto_version;
          flags = Flags.empty;
          connection_id = pkt.session_key.connection_id;
          sequence = seq;
        } in
        elim (encrypt_frame crypto.aead sess.aead_key header pkt.payload) [
          | ok wire ↦ (some (pkt.session_key.client_addr, wire), st')
          | err e ↦ (none, st')
        ]
  ]
