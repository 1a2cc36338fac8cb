-- ===== src/Client/Modes/Written.antt =====
-- crates/gr-client/src/forwarder.rs: the rules of a configuration file, as a user writes them.
use lowping.Base.{
  ℕ, ◌^◌, ◌<◌, ◌≡◌, Bool, true, List, [], ◌∷◌, Option, none, some, ◌==◌, if◌then◌else◌,
}
use lowping.Base.Bytes.{Bytes}
use lowping.Base.Eq.{nat_eq, list_beq}
use lowping.Base.Int.{pos}
use lowping.Net.{IpAddr}
use lowping.Net.Show.{codes}
use lowping.Settings.Serde.{
  Values, nil, cons, string, integer, boolean, table, Slot, absent, present, Table, Formats,
}
use lowping.Client.Modes.{Rule}

-- The keys with a default are left out where they have it.
abbrev protocol_slot : {F : Type 0} → Bytes → Slot F
protocol_slot p = if list_beq p (codes "tcp") then absent else present (string p)

abbrev idle_slot : {F : Type 0} → ℕ → Slot F
idle_slot n = if n == 90 then absent else present (integer (pos n))

abbrev capture_slot : {F : Type 0} → Bool → Slot F
capture_slot b = if b then present (boolean true) else absent

abbrev port_slot : {F : Type 0} → Option ℕ → Slot F
port_slot none = absent
port_slot (some p) = present (integer (pos p))

abbrev pub InU16 : Option ℕ → Type 0
InU16 none = Unit {0}
InU16 (some p) = p < 2 ^ 16

module _ (fm : Formats) (show_ip : IpAddr → Bytes) where
  open fm use {F64}

  abbrev ip_slot : Option IpAddr → Slot F64
  ip_slot none = absent
  ip_slot (some ip) = present (string (show_ip ip))

  abbrev pub Prints : Option IpAddr → Type 0
  Prints none = Unit {0}
  Prints (some ip) = fm.parse_ip (show_ip ip) ≡ some ip

  -- A rule that can stand in a file: its numbers are in range, and the text of its addresses is read.
  pub record IsWritable (rule : Rule) : Type 0 where
    pub dest_ip : fm.parse_ip (show_ip rule.dest_ip) ≡ some rule.dest_ip
    pub dest_port : rule.dest_port < 2 ^ 16
    pub idle : rule.udp_idle_secs < 2 ^ 64
    pub lo : InU16 rule.capture_dst_port_lo
    pub hi : InU16 rule.capture_dst_port_hi
    pub ip : Prints rule.capture_dst_ip

  -- A rule as a file has it: each field under its own name.
  unfoldable pub rule_table : Rule → Table F64
  rule_table rule key =
      if list_beq key (codes "listen")
      then present (string (fm.show_addr rule.listen))
      else if list_beq key (codes "bridge")
      then present (string (fm.show_addr rule.bridge))
      else if list_beq key (codes "bridge_x25519_pubkey_hex")
      then present (string rule.bridge_x25519_pubkey_hex)
      else if list_beq key (codes "license_token")
      then present (string rule.license_token)
      else if list_beq key (codes "dest_ip")
      then present (string (show_ip rule.dest_ip))
      else if list_beq key (codes "dest_port")
      then present (integer (pos rule.dest_port))
      else if list_beq key (codes "protocol")
      then protocol_slot rule.protocol
      else if list_beq key (codes "udp_idle_secs")
      then idle_slot rule.udp_idle_secs
      else if list_beq key (codes "capture")
      then capture_slot rule.capture
      else if list_beq key (codes "capture_dst_port_lo")
      then port_slot rule.capture_dst_port_lo
      else if list_beq key (codes "capture_dst_port_hi")
      then port_slot rule.capture_dst_port_hi
      else if list_beq key (codes "capture_dst_ip")
      then ip_slot rule.capture_dst_ip
      else absent

  abbrev pub rule_tables : List Rule → Values F64
  rule_tables [] = nil
  rule_tables (rule ∷ rules) = cons (table (rule_table rule)) (rule_tables rules)
