-- ===== src/Settings.antt =====
-- The configuration files: TOML, a value in memory, the serde derives of crates/gr-common/src/lib.rs, and
-- its `load` and `save`. The texts of the files and their parser are the toml crate's, and enter as an
-- interface; the file system is another.
pub mod Serde
pub mod RoundTrip
use Prim.Native.String.{String}
use lowping.Base.{
  ℕ, ◌^◌, ◌<◌, ◌≡◌, Bool, true, List, [], ◌∷◌, Option, none, some, Result, ok, err, ok_or, map_err,
  ◌>>=◌, if◌then◌else◌, All,
}
use lowping.Base.Bytes.{Bytes}
use lowping.Base.Eq.{nat_eq, list_beq}
use lowping.Base.Int.{pos}
use lowping.Net.{SocketAddr}
use lowping.Net.Show.{codes}
use lowping.Settings.Serde.{
  Value, string, integer, float, boolean, array, table, Values, nil, cons, Slot, absent, present,
  Table, Formats, Toml, Invalid, required, optional, with_default, as_string, as_bool, as_unsigned,
  as_list_of, as_table, as_addr, as_f32,
}

pub data ConfigError : Type 0 where
  io toml toml_ser : ConfigError

-- Files by name, over an unknown state.
pub record Files (Text : Type 0) : Type 1 where
  pub State : Type 0
  pub read_to_string : State → Bytes → Option Text
  pub write : State → Bytes → Text → Option State
  -- What was written is what is read.
  pub read_to_string-write :
      (s s' : State) (path : Bytes) (text : Text)
      → write s path text ≡ some s'
      → read_to_string s' path ≡ some text

-- A bridge that a client knows.
pub record BridgeConfig : Type 0 where
  pub name : Bytes
  pub endpoint : SocketAddr
  pub bridge_pubkey_hex : Bytes
  pub client_seckey_hex : Bytes
  pub region : Option Bytes
  pub enabled : Bool

pub record BridgeServerConfig : Type 0 where
  pub listen : SocketAddr
  pub bridge_seckey_hex : Bytes
  pub allowed_client_pubkeys : List Bytes
  pub metrics_listen : Option SocketAddr

abbrev pub default_paths : ℕ
default_paths = 1

abbrev pub default_pipe : Bytes
default_pipe = codes "\\\\.\\pipe\\lowping"

abbrev pub optional_string : {F : Type 0} → Option Bytes → Slot F
optional_string none = absent
optional_string (some s) = present (string s)

module _ (fm : Formats) where
  open fm use {F32, F64, show_addr, f32_zero, of_f32}

  pub record ClientConfig : Type 0 where
    pub bridges : List BridgeConfig
    pub fec_ratio : F32
    pub paths : ℕ
    pub ipc_pipe : Bytes

  -- `impl Default for ClientConfig`
  abbrev pub default_client : ClientConfig
  default_client = record { bridges = []; fec_ratio = f32_zero; paths = 1; ipc_pipe = default_pipe }

  -- The derived `Deserialize`: a key that no field has is passed over.
  unfoldable pub read_bridge : Table F64 → Result Invalid BridgeConfig
  read_bridge t = do
    name ← required as_string (t (codes "name"))
    endpoint ← required (as_addr fm) (t (codes "endpoint"))
    bridge_key ← required as_string (t (codes "bridge_pubkey_hex"))
    client_key ← required as_string (t (codes "client_seckey_hex"))
    region ← optional as_string (t (codes "region"))
    enabled ← with_default as_bool true (t (codes "enabled"))
    ok (record {
      name = name;
      endpoint = endpoint;
      bridge_pubkey_hex = bridge_key;
      client_seckey_hex = client_key;
      region = region;
      enabled = enabled;
    })

  unfoldable pub as_bridge : Value F64 → Result Invalid BridgeConfig
  as_bridge v = do t ← as_table v; read_bridge t

  unfoldable pub read_client : Table F64 → Result Invalid ClientConfig
  read_client t = do
    bridges ← required (as_list_of as_bridge) (t (codes "bridges"))
    fec_ratio ← with_default (as_f32 fm) f32_zero (t (codes "fec_ratio"))
    paths ← with_default (as_unsigned 256) default_paths (t (codes "paths"))
    ipc_pipe ← with_default as_string default_pipe (t (codes "ipc_pipe"))
    ok (record { bridges = bridges; fec_ratio = fec_ratio; paths = paths; ipc_pipe = ipc_pipe })

  unfoldable pub read_server : Table F64 → Result Invalid BridgeServerConfig
  read_server t = do
    listen ← required (as_addr fm) (t (codes "listen"))
    seckey ← required as_string (t (codes "bridge_seckey_hex"))
    allowed ← required (as_list_of as_string) (t (codes "allowed_client_pubkeys"))
    metrics ← optional (as_addr fm) (t (codes "metrics_listen"))
    ok (record {
      listen = listen;
      bridge_seckey_hex = seckey;
      allowed_client_pubkeys = allowed;
      metrics_listen = metrics;
    })

  -- The derived `Serialize`: an entry for each field, and none for a `None`.
  unfoldable pub write_bridge : BridgeConfig → Table F64
  write_bridge b key =
      if list_beq key (codes "name")
      then present (string b.name)
      else if list_beq key (codes "endpoint")
      then present (string (show_addr b.endpoint))
      else if list_beq key (codes "bridge_pubkey_hex")
      then present (string b.bridge_pubkey_hex)
      else if list_beq key (codes "client_seckey_hex")
      then present (string b.client_seckey_hex)
      else if list_beq key (codes "region")
      then optional_string b.region
      else if list_beq key (codes "enabled")
      then present (boolean b.enabled)
      else absent

  unfoldable pub write_bridges : List BridgeConfig → Values F64
  write_bridges [] = nil
  write_bridges (b ∷ bs) = cons (table (write_bridge b)) (write_bridges bs)

  unfoldable pub write_client : ClientConfig → Table F64
  write_client c key =
      if list_beq key (codes "bridges")
      then present (array (write_bridges c.bridges))
      else if list_beq key (codes "fec_ratio")
      then present (float (of_f32 c.fec_ratio))
      else if list_beq key (codes "paths")
      then present (integer (pos c.paths))
      else if list_beq key (codes "ipc_pipe")
      then present (string c.ipc_pipe)
      else absent

  module _ (tm : Toml F64) (files : Files tm.Text) where
    -- `std::fs::read_to_string` and `toml::from_str`, for the type that a derive reads.
    unfoldable pub load {ℓ} :
        {A : Type ℓ} → (Table F64 → Result Invalid A) → files.State → Bytes → Result ConfigError A
    load read fs path = do
      text ← ok_or (files.read_to_string fs path) io
      t ← ok_or (tm.from_str text) toml
      map_err (λ e. toml) (read t)

    abbrev pub load_client : files.State → Bytes → Result ConfigError ClientConfig
    load_client = load read_client

    abbrev pub load_server : files.State → Bytes → Result ConfigError BridgeServerConfig
    load_server = load read_server

    unfoldable pub save : ClientConfig → files.State → Bytes → Result ConfigError files.State
    save c fs path = do
      text ← ok_or (tm.to_string_pretty (write_client c)) toml_ser
      ok_or (files.write fs path text) io
