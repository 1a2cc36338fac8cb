-- ===== src/Bridge/Setup.antt =====
-- crates/gr-bridge/src/config.rs, main.rs and the start of server.rs: the configuration file, the keys in
-- it, and the state that the bridge starts from. The reading of a text is that of the toml crate.
use lowping.Base.{
  ℕ, ◌^◌, Bool, false, not, Result, ok, ok_or, map_err, bail_if, ◌>>=◌, ◌>>◌, length, ◌==◌,
}
use lowping.Base.Bytes.{Bytes}
use lowping.Crypto.{Suite}
use lowping.Net.Show.{codes}
use lowping.Protocol.Handshake.{HandshakeError, generate_keypair, secret_from_bytes}
use lowping.Settings.Serde.{
  Table, Formats, Toml, Invalid, required, optional, with_default, as_string, as_bool, as_unsigned,
  as_addr,
}
use lowping.Settings.{Files, ConfigError, load}
use lowping.Bridge.{BridgeConfig, BridgeState}
use lowping.Bridge.Run.{start}

abbrev pub default_max_sessions : ℕ
default_max_sessions = 10000

abbrev pub default_idle_timeout : ℕ
default_idle_timeout = 300

module _ (fm : Formats) where
  open fm use {F64}

  -- The derived `Deserialize`.
  unfoldable pub read_config : Table F64 → Result Invalid BridgeConfig
  read_config t = do
    listen ← required (as_addr fm) (t (codes "listen"))
    seckey ← required as_string (t (codes "bridge_x25519_seckey_hex"))
    pubkey ← required as_string (t (codes "backend_ed25519_pubkey_hex"))
    any_scope ← with_default as_bool false (t (codes "allow_any_scope"))
    max_sessions ←
        with_default (as_unsigned (2 ^ 64)) default_max_sessions (t (codes "max_sessions"))
    idle ← with_default (as_unsigned (2 ^ 64)) default_idle_timeout (t (codes "idle_timeout_secs"))
    metrics ← optional (as_addr fm) (t (codes "metrics_listen"))
    ok (record {
      listen = listen;
      bridge_x25519_seckey_hex = seckey;
      backend_ed25519_pubkey_hex = pubkey;
      allow_any_scope = any_scope;
      max_sessions = max_sessions;
      idle_timeout_secs = idle;
      metrics_listen = metrics;
    })

  -- `BridgeConfig::load`
  abbrev pub load_config :
      (tm : Toml F64) (files : Files tm.Text)
      → files.State
      → Bytes
      → Result ConfigError BridgeConfig
  load_config tm files = load fm tm files read_config

pub data SetupError : Type 0 where
  config : ConfigError → SetupError
  bad_hex : SetupError
  handshake : HandshakeError → SetupError
  bad_pubkey_length : SetupError
  not_a_point : SetupError
  bind_failed : SetupError

module _ (crypto : Suite) where
  open crypto use {ecdh, hex}

  -- The two lines that `gen-key` prints: the secret for the bridge, and the public key for its clients.
  unfoldable pub gen_key : Bytes → Bytes × Bytes
  gen_key drawn = let (sk, pk) = generate_keypair ecdh drawn in (hex.encode sk, hex.encode pk)

  unfoldable pub parsed_x25519_secret : BridgeConfig → Result SetupError Bytes
  parsed_x25519_secret cfg = do
    bytes ← ok_or (hex.decode cfg.bridge_x25519_seckey_hex) bad_hex
    map_err handshake (secret_from_bytes bytes)

  -- `is_point` is the test of `VerifyingKey::from_bytes`, which keeps the bytes.
  module _ (is_point : Bytes → Bool) where
    unfoldable pub parsed_backend_pubkey : BridgeConfig → Result SetupError Bytes
    parsed_backend_pubkey cfg = do
      bytes ← ok_or (hex.decode cfg.backend_ed25519_pubkey_hex) bad_hex
      bail_if (not (length bytes == 32)) bad_pubkey_length
      bail_if (not (is_point bytes)) not_a_point
      ok bytes

    -- `run` up to its loop. The answer of the bind is `bound`.
    unfoldable pub set_up : BridgeConfig → Bool → Result SetupError BridgeState
    set_up cfg bound = do
      bridge_secret ← parsed_x25519_secret cfg
      backend_pubkey ← parsed_backend_pubkey cfg
      bail_if (not bound) bind_failed
      ok (start cfg bridge_secret backend_pubkey)

    -- The command `serve`, as far.
    unfoldable pub serve :
        (fm : Formats) (tm : Toml fm.F64) (files : Files tm.Text)
        → files.State
        → Bytes
        → Bool
        → Result SetupError BridgeState
    serve fm tm files fs path bound = do
      cfg ← map_err config (load_config fm tm files fs path)
      set_up cfg bound
