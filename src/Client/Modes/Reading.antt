-- ===== src/Client/Modes/Reading.antt =====
-- crates/gr-client/src/forwarder.rs: what the serde derive reads for a rule of the configuration file.
use lowping.Base.{ℕ, ◌^◌, false, List, [], Result, ok, ◌>>=◌}
use lowping.Base.Bytes.{Bytes}
use lowping.Net.Show.{codes}
use lowping.Settings.Serde.{
  Value, Table, Formats, Invalid, required, optional, with_default, as_string, as_bool, as_unsigned,
  as_addr, as_ip, as_table, as_list_of,
}
use lowping.Client.Modes.{Rule}

abbrev pub default_proto : Bytes
default_proto = codes "tcp"

abbrev pub default_udp_idle : ℕ
default_udp_idle = 90

module _ (fm : Formats) where
  open fm use {F64}

  abbrev as_u16 : Value F64 → Result Invalid ℕ
  as_u16 = as_unsigned (2 ^ 16)

  unfoldable pub read_rule : Table F64 → Result Invalid Rule
  read_rule t = do
    listen ← required (as_addr fm) (t (codes "listen"))
    bridge ← required (as_addr fm) (t (codes "bridge"))
    pubkey ← required as_string (t (codes "bridge_x25519_pubkey_hex"))
    token ← required as_string (t (codes "license_token"))
    dest_ip ← required (as_ip fm) (t (codes "dest_ip"))
    dest_port ← required as_u16 (t (codes "dest_port"))
    protocol ← with_default as_string default_proto (t (codes "protocol"))
    idle ← with_default (as_unsigned (2 ^ 64)) default_udp_idle (t (codes "udp_idle_secs"))
    capture ← with_default as_bool false (t (codes "capture"))
    lo ← optional as_u16 (t (codes "capture_dst_port_lo"))
    hi ← optional as_u16 (t (codes "capture_dst_port_hi"))
    ip ← optional (as_ip fm) (t (codes "capture_dst_ip"))
    ok (record {
      listen = listen;
      bridge = bridge;
      bridge_x25519_pubkey_hex = pubkey;
      license_token = token;
      dest_ip = dest_ip;
      dest_port = dest_port;
      protocol = protocol;
      udp_idle_secs = idle;
      capture = capture;
      capture_dst_port_lo = lo;
      capture_dst_port_hi = hi;
      capture_dst_ip = ip;
    })

  unfoldable pub as_rule : Value F64 → Result Invalid Rule
  as_rule v = do t ← as_table v; read_rule t

  -- The rules of a `Config`.
  unfoldable pub read_rules : Table F64 → Result Invalid (List Rule)
  read_rules t = with_default (as_list_of as_rule) [] (t (codes "rules"))
