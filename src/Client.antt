-- ===== src/Client.antt =====
-- crates/gr-client/src: the tunnel that forwarder.rs and smart.rs open alike, and the UDP sessions that
-- feed it. What the random generator and the sockets answer is an argument.
pub mod Tunnel
pub mod Udp
pub mod Router
pub mod Modes
pub mod Listener
pub mod Tcp
pub mod Connection
pub mod Tui
use lowping.Base.{
  ℕ, ◌+◌, ◌%◌, ◌^◌, ◌≡◌, Bool, true, false, not, List, [], ◌∷◌, ◌++◌, Option, none, some, Result,
  ok, err, bail_if, ok_or, map_err, ◌>>=◌, ◌>>◌, ltb,
}
use lowping.Base.Bytes.{Bytes}
use lowping.Base.Eq.{Eq}
use lowping.Base.Dict.{Dict, get, insert, retain}
use lowping.Crypto.{Suite}
use lowping.Net.{SocketAddr}
use lowping.Protocol.{Header, ProtocolError, proto_version}
use lowping.Protocol.Flags
use lowping.Protocol.Frame.{encrypt_frame, decrypt_frame, encrypt_syn_frame}
use lowping.Protocol.Connect
use lowping.Protocol.Connect.{ConnectRequest, TransportProtocol}
use lowping.Protocol.Handshake.{
  HandshakeError, generate_keypair, pubkey_from_bytes, client_derive_session_key,
}
use lowping.Protocol.License.{LicenseError, from_string_b64, to_bytes}

pub data TunnelError : Type 0 where
  bad_pubkey_hex : TunnelError
  handshake : HandshakeError → TunnelError
  license : LicenseError → TunnelError
  protocol : ProtocolError → TunnelError
  socket_failed : TunnelError

-- The part of a `Rule` and of a `BridgeEntry` that a tunnel needs.
pub record Peer : Type 0 where
  pub bridge_x25519_pubkey_hex : Bytes
  pub license_token : Bytes

-- What the system answers while a tunnel is opened: the secret and the id drawn, the handle of the
-- bound and connected socket, and whether the SYN could be sent.
pub record Draw : Type 0 where
  pub secret : Bytes
  pub connection_id : ℕ
  pub socket : Option ℕ
  pub sent : Bool

pub record OpenedTunnel : Type 0 where
  pub udp_to_bridge : ℕ
  pub aead_key : Bytes
  pub connection_id : ℕ

pub record UdpSession : Type 0 where
  pub udp_to_bridge : ℕ
  pub aead_key : Bytes
  pub connection_id : ℕ
  pub tx_sequence : ℕ
  pub last_active : ℕ

-- The session that is entered for a tunnel.
abbrev pub session_of : OpenedTunnel → ℕ → UdpSession
session_of tunnel at = record {
  udp_to_bridge = tunnel.udp_to_bridge;
  aead_key = tunnel.aead_key;
  connection_id = tunnel.connection_id;
  tx_sequence = 0;
  last_active = at;
}

abbrev pub as_list {ℓ} : {A : Type ℓ} → Option A → List A
as_list none = []
as_list (some a) = a ∷ []

-- The forwarder's idle reaper, one tick: sources whose session was last active before the cutoff. (That
-- `Instant` panics where the cutoff is before the start of the clock is left out.)
module _ {ℓ} {K : Type ℓ} ⦃e : Eq K⦄ where
  unfoldable pub reap_sessions : ℕ → ℕ → Dict K UdpSession → Dict K UdpSession
  reap_sessions idle at sessions =
      retain (λ _ sess. not (ltb (sess.last_active + idle) at)) sessions

-- The header of a session's next data frame. `fetch_add` wraps, and so does `+ 1` in a release build.
abbrev pub data_header : UdpSession → Header
data_header sess = record {
  version = proto_version;
  flags = Flags.empty;
  connection_id = sess.connection_id;
  sequence = (sess.tx_sequence + 1) % 2 ^ 64;
}

module _ (crypto : Suite) where
  open crypto use {aead, ecdh, b64, hex}

  -- `open_tunnel`: the tunnel, and the SYN that was sent.
  unfoldable pub open_tunnel :
      Peer → Draw → ConnectRequest → Result TunnelError (OpenedTunnel × Bytes)
  open_tunnel peer draw connect = do
    let keys = generate_keypair ecdh draw.secret
    bridge_pk_bytes ← ok_or (hex.decode peer.bridge_x25519_pubkey_hex) bad_pubkey_hex
    bridge_pk ← map_err handshake (pubkey_from_bytes bridge_pk_bytes)
    let key = client_derive_session_key ecdh keys.0 bridge_pk
    token ← map_err license (from_string_b64 b64 peer.license_token)
    udp ← ok_or draw.socket socket_failed
    let inner = to_bytes token ++ Connect.encode connect
    let header : Header = record {
      version = proto_version;
      flags = Flags.syn;
      connection_id = draw.connection_id;
      sequence = 0;
    }
    syn_wire ← map_err protocol (encrypt_syn_frame aead key header keys.1 inner)
    bail_if (not draw.sent) socket_failed
    ok (
      record { udp_to_bridge = udp; aead_key = key; connection_id = draw.connection_id },
      syn_wire,
    )

  -- The end of the listeners' loop body: the clock, the counter and the frame. The counter moves also
  -- where encryption fails, and the datagram is dropped then.
  unfoldable pub send_datagram : UdpSession → Bytes → ℕ → Option (ℕ × Bytes) × UdpSession
  send_datagram sess payload at =
      let sess' : UdpSession = record sess {
        tx_sequence = (sess.tx_sequence + 1) % 2 ^ 64;
        last_active = at;
      } in
      elim (encrypt_frame aead sess.aead_key (data_header sess) payload) [
        | ok wire ↦ (some (sess.udp_to_bridge, wire), sess')
        | err e ↦ (none, sess')
      ]

  -- The responder's loop body: a frame that does not open is dropped; what is sent back to the local
  -- source touches the session.
  unfoldable pub receive_frame : UdpSession → Bytes → ℕ → Option Bytes × UdpSession
  receive_frame sess wire at = elim (decrypt_frame aead sess.aead_key wire) [
    | err e ↦ (none, sess)
    | ok (h, payload) ↦ (some payload, record sess { last_active = at })
  ]

  -- One datagram from a local source. `fresh` is what opening a tunnel for this source gives; it is
  -- looked at only where the source has no session. The result lists what went to the network.
  module _ {ℓ} {K : Type ℓ} ⦃e : Eq K⦄ where
    unfoldable pub handle_datagram :
        Dict K UdpSession
        → K
        → Option (OpenedTunnel × Bytes)
        → Bytes
        → ℕ
        → List (ℕ × Bytes) × Dict K UdpSession
    handle_datagram sessions src fresh payload at = elim (get src sessions) [
      | some sess ↦
          let (sent, sess') = send_datagram sess payload at in
          (as_list sent, insert src sess' sessions)
      | none ↦ elim fresh [
        | none ↦ ([], sessions)
        | some (tunnel, syn_wire) ↦
            let (sent, sess') = send_datagram (session_of tunnel at) payload at in
            ((tunnel.udp_to_bridge, syn_wire) ∷ as_list sent, insert src sess' sessions)
      ]
    ]
