-- ===== src/Backend/Setup.antt =====
-- crates/gr-backend/src/state.rs and main.rs: the backend's configuration file, its keys and its start.
use lowping.Base.{ℕ, ◌^◌, ◌*◌, Bool, not, Result, ok, map_err, bail_if, ◌>>=◌, ◌>>◌}
use lowping.Base.Bytes.{Bytes}
use lowping.Crypto.{Suite}
use lowping.Net.Show.{codes}
use lowping.Settings.Serde.{
  Table, Value, Formats, Toml, Invalid, required, with_default, as_string, as_bool, as_unsigned,
  as_addr, as_list_of, as_table,
}
use lowping.Settings.{Files, ConfigError, load}
use lowping.Backend.{BackendConfig, BridgeEntry, AppState, SetupError, new_state}

abbrev pub default_token_ttl : ℕ
default_token_ttl = 7 * 24 * 60 * 60

abbrev pub default_directory_ttl : ℕ
default_directory_ttl = 30 * 60

module _ (fm : Formats) where
  open fm use {F64}

  -- The derived `Deserialize` of both types.
  unfoldable pub read_entry : Table F64 → Result Invalid BridgeEntry
  read_entry t = do
    id ← required as_string (t (codes "id"))
    name ← required as_string (t (codes "name"))
    region ← required as_string (t (codes "region"))
    zone ← required as_string (t (codes "zone"))
    endpoint ← required (as_addr fm) (t (codes "endpoint"))
    pubkey ← required as_string (t (codes "pubkey_hex"))
    game_zones ← required (as_list_of as_string) (t (codes "game_zones"))
    enabled ← required as_bool (t (codes "enabled"))
    ok (record {
      id = id;
      name = name;
      region = region;
      zone = zone;
      endpoint = endpoint;
      pubkey_hex = pubkey;
      game_zones = game_zones;
      enabled = enabled;
    })

  unfoldable pub as_entry : Value F64 → Result Invalid BridgeEntry
  as_entry v = do t ← as_table v; read_entry t

  unfoldable pub read_config : Table F64 → Result Invalid BackendConfig
  read_config t = do
    listen ← required (as_addr fm) (t (codes "listen"))
    seckey ← required as_string (t (codes "backend_seckey_hex"))
    bridges ← required (as_list_of as_entry) (t (codes "bridges"))
    token_ttl ← with_default (as_unsigned (2 ^ 64)) default_token_ttl (t (codes "token_ttl_secs"))
    directory_ttl ←
        with_default (as_unsigned (2 ^ 64)) default_directory_ttl (t (codes "directory_ttl_secs"))
    ok (record {
      listen = listen;
      backend_seckey_hex = seckey;
      bridges = bridges;
      token_ttl_secs = token_ttl;
      directory_ttl_secs = directory_ttl;
    })

  -- `BackendConfig::load`
  abbrev pub load_config :
      (tm : Toml F64) (files : Files tm.Text)
      → files.State
      → Bytes
      → Result ConfigError BackendConfig
  load_config tm files = load fm tm files read_config

pub data ServeError : Type 0 where
  config : ConfigError → ServeError
  setup : SetupError → ServeError
  bind_failed : ServeError

module _ (crypto : Suite) where
  open crypto use {ed, hex}

  -- The two lines that `gen-key` prints: the secret for the backend, and the public key for all others.
  unfoldable pub gen_key : Bytes → Bytes × Bytes
  gen_key drawn = (hex.encode drawn, hex.encode (ed.verifying_key drawn))

  -- The command `serve` up to its loop. The answer of the bind is `bound`.
  unfoldable pub serve :
      (fm : Formats) (tm : Toml fm.F64) (files : Files tm.Text)
      → files.State
      → Bytes
      → Bool
      → Result ServeError AppState
  serve fm tm files fs path bound = do
    cfg ← map_err config (load_config fm tm files fs path)
    state ← map_err setup (new_state crypto cfg)
    bail_if (not bound) bind_failed
    ok state
