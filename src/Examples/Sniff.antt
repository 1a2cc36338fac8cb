-- ===== src/Examples/Sniff.antt =====
-- crates/gr-capture/examples/sniff.rs: the rules of its command line. The parsers of addresses are those of
-- std::net, and are arguments.
pub mod RoundTrip
use lowping.Base.{
  ℕ, ◌≡◌, List, [], ◌∷◌, length, Option, none, some, Result, ok, err, ok_or, ◌>>=◌, if◌then◌else◌,
  ◌==◌,
}
use lowping.Base.Bytes.{Bytes}
use lowping.Base.Eq.{nat_eq, list_beq}
use lowping.Net.{IpAddr, SocketAddr}
use lowping.Net.Show.{codes}
use lowping.Net.Text.{split, split_once, rsplit_once, to_lower, parse_u16}
use lowping.Capture.{Protocol, tcp, udp, RedirectRule}

pub data RuleError : Type 0 where
  wrong_parts : ℕ → RuleError
  unknown_protocol : Bytes → RuleError
  missing_colon : RuleError
  bad_ip bad_port bad_local : RuleError

abbrev pub protocol_named : Bytes → Result RuleError Protocol
protocol_named name =
    if list_beq name (codes "tcp")
    then ok tcp
    else if list_beq name (codes "udp")
    then ok udp
    else err (unknown_protocol name)

-- One port, or a range.
unfoldable pub parse_ports : Bytes → Result RuleError (ℕ × ℕ)
parse_ports port_part = elim (split_once 0x2D port_part) [
  | none ↦ do p ← ok_or (parse_u16 port_part) bad_port; ok (p, p)
  | some (front, back) ↦ do
    l ← ok_or (parse_u16 front) bad_port
    h ← ok_or (parse_u16 back) bad_port
    ok (l, h)
]

module _ (parse_ip : Bytes → Option IpAddr) (parse_addr : Bytes → Option SocketAddr) where
  unfoldable pub parse_parts : Bytes → Bytes → Bytes → Result RuleError RedirectRule
  parse_parts proto dst local = do
    protocol ← protocol_named (to_lower proto)
    (ip_part, port_part) ← ok_or (rsplit_once 0x3A dst) missing_colon
    dst_ip ← ok_or (parse_ip ip_part) bad_ip
    (lo, hi) ← parse_ports port_part
    to ← ok_or (parse_addr local) bad_local
    ok (record {
      protocol = protocol;
      dst_ip = dst_ip;
      dst_port_lo = lo;
      dst_port_hi = hi;
      redirect_to_ip = to.ip;
      redirect_to_port = to.port;
    })

  abbrev pub of_parts : List Bytes → Result RuleError RedirectRule
  of_parts (proto ∷ dst ∷ local ∷ []) = parse_parts proto dst local
  of_parts parts = err (wrong_parts (length parts))

  unfoldable pub parse_rule : Bytes → Result RuleError RedirectRule
  parse_rule s = of_parts (split 0x2C s)

  -- The rules of all the arguments; the first that is wrong ends it.
  unfoldable pub parse_rules : List Bytes → Result RuleError (List RedirectRule)
  parse_rules [] = ok []
  parse_rules (s ∷ ss) = do r ← parse_rule s; rest ← parse_rules ss; ok (r ∷ rest)
