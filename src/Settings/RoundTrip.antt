-- ===== src/Settings/RoundTrip.antt =====
-- What `save` writes `load` reads back; and what `load` gives where keys are left out.
use lowping.Base.{
  ◌<◌, ◌≡◌, refl, List, [], ◌∷◌, Option, none, some, ok, Option-cases, inl, inr, lt→ltb, arith,
}
use lowping.Base.Bytes.{Bytes}
use lowping.Base.Eq.{nat_eq}
use lowping.Net.Show.{codes}
use lowping.Settings.Serde.{
  string, array, present, absent, Table, Formats, Toml, required, optional, with_default, each,
  as_list_of, as_string, as_bool, as_unsigned, as_table, as_addr, as_f32,
}
use lowping.Settings.{
  BridgeConfig, ClientConfig, Files, optional_string, default_client, read_bridge, as_bridge,
  read_client, write_bridge, write_bridges, write_client, load, load_client, save,
}

module _ (fm : Formats) where
  open fm use {F64}

  optional-optional_string :
      (r : Option Bytes) → optional {F = F64} as_string (optional_string r) ≡ ok r
  unfolding optional as_string
  optional-optional_string none = refl
  optional-optional_string (some s) = refl

  as_addr-show_addr :
      (b : BridgeConfig) → as_addr fm (string (fm.show_addr b.endpoint)) ≡ ok b.endpoint
  unfolding as_addr
  as_addr-show_addr b = rw (fm.parse_addr-show_addr b.endpoint) refl

  read_bridge-write_bridge : (b : BridgeConfig) → read_bridge fm (write_bridge fm b) ≡ ok b
  unfolding read_bridge write_bridge required with_default as_string as_bool
  read_bridge-write_bridge b = rw (as_addr-show_addr b, optional-optional_string b.region) refl

  each-write_bridges : (bs : List BridgeConfig) → each (as_bridge fm) (write_bridges fm bs) ≡ ok bs
  unfolding each write_bridges as_bridge as_table
  each-write_bridges [] = refl
  each-write_bridges (b ∷ bs) = rw (read_bridge-write_bridge b, each-write_bridges bs) refl

  read_client-write_client :
      (c : ClientConfig fm) → c.paths < 256 → read_client fm (write_client fm c) ≡ ok c
  unfolding read_client write_client required with_default as_list_of as_string as_f32 as_unsigned
  read_client-write_client c small =
      rw (each-write_bridges c.bridges, fm.to_f32-of_f32 c.fec_ratio, lt→ltb c.paths 256 small) refl

  module _ (tm : Toml F64) (files : Files tm.Text) where
    -- A configuration with its path count in an `u8` that was saved is loaded again as it was.
    pub load_client-save :
        (c : ClientConfig fm) (fs fs' : files.State) (path : Bytes)
        → c.paths < 256
        → save fm tm files c fs path ≡ ok fs'
        → load_client fm tm files fs' path ≡ ok c
    unfolding load save
    load_client-save c fs fs' path small saved =
        elim (Option-cases (tm.to_string_pretty (write_client fm c))) [
          | inl unprinted ↦ absurd (ground arith)
          | inr (text, printed) ↦ elim (Option-cases (files.write fs path text)) [
            | inl refused ↦ absurd (ground arith)
            | inr (after, written) ↦
                let same : after ≡ fs' = ground arith in
                let kept = files.read_to_string-write fs after path text written in
                let read = tm.from_str-to_string_pretty (write_client fm c) text printed in
                rw (← same, kept, read, read_client-write_client c small) refl
          ]
        ]

    -- A file that gives the list of bridges and none of the other keys is loaded as the default
    -- configuration with these bridges: the defaults that the derive puts in are those of `Default`.
    pub load_client-default :
        (fs : files.State) (path : Bytes) (text : tm.Text) (t : Table F64)
        (bridges : List BridgeConfig)
        → files.read_to_string fs path ≡ some text
        → tm.from_str text ≡ some t
        → t (codes "bridges") ≡ present (array (write_bridges fm bridges))
        → t (codes "fec_ratio") ≡ absent
        → t (codes "paths") ≡ absent
        → t (codes "ipc_pipe") ≡ absent
        → load_client fm tm files fs path ≡ ok (record (default_client fm) { bridges = bridges })
    unfolding load read_client required with_default as_list_of
    load_client-default fs path text t bridges found parsed given no_ratio no_paths no_pipe =
        rw (found, parsed, given, no_ratio, no_paths, no_pipe, each-write_bridges bridges) refl
