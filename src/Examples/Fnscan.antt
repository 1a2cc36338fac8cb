-- ===== src/Examples/Fnscan.antt =====
-- crates/gr-capture/examples/fnscan.rs: the scan of a process's flows, and the rules that it suggests. What
-- `tasklist` prints and what the driver reports are arguments. A `HashMap` is iterated in any order.
pub mod Suggest
use lowping.Base.{
  ℕ, ◌+◌, ◌%◌, ◌^◌, ◌≡◌, ◌↔◌, Bool, true, false, ◌&&◌, ◌||◌, not, List, [], ◌∷◌, ◌++◌, map, length,
  min, Option, none, some, arith, ◌==◌, ltb, leb, if◌then◌else◌,
}
use lowping.Base.Bytes.{Bytes}
use lowping.Base.Eq.{Eq, nat_eq, list_beq}
use lowping.Base.Dict.{Dict, get, insert}
use lowping.Net.{IpAddr, ip_beq, ip_beq_iff, SocketAddr, addr_beq, addr_beq_iff}
use lowping.Net.Show.{codes, show_nat, join}
use lowping.Net.Text.{split, to_lower, contains, parse_u32}

-- The parts of a line between its quotation marks, without the empty ones and the commas.
abbrev pub is_part : Bytes → Bool
is_part s = not (length s == 0) && not (list_beq s (codes ","))

abbrev pub parts_of : List Bytes → List Bytes
parts_of [] = []
parts_of (s ∷ ss) = if is_part s then s ∷ parts_of ss else parts_of ss

abbrev pub pid_of : Bytes → List Bytes → List ℕ
pid_of needle [] = []
pid_of needle (name ∷ []) = []
pid_of needle (name ∷ pid ∷ more) =
    if contains needle (to_lower name)
    then elim (parse_u32 pid) [ none ↦ [] | some n ↦ n ∷ [] ]
    else []

-- `list_pids_for`, on the lines of the output.
unfoldable pub list_pids_for : Bytes → List Bytes → List ℕ
list_pids_for name [] = []
list_pids_for name (line ∷ lines) =
    pid_of (to_lower name) (parts_of (split 0x22 line)) ++ list_pids_for name lines

abbrev pub pid_clause : ℕ → Bytes
pid_clause p = codes "processId == " ++ show_nat p

unfoldable pub build_filter : List ℕ → Bool → Bytes
build_filter pids udp_only =
    if length pids == 0
    then codes "false"
    else codes "event == ESTABLISHED"
      ++ ((if udp_only then codes " and protocol == 17" else [])
          ++ (codes " and (" ++ (join (codes " or ") (map pid_clause pids) ++ codes ")")))

-- A flow by its protocol's number and its remote address.
pub record Flow : Type 0 where
  pub proto : ℕ
  pub remote : SocketAddr

abbrev pub flow_beq : Flow → Flow → Bool
flow_beq a b = a.proto == b.proto && addr_beq a.remote b.remote

pub flow_beq_iff : (a b : Flow) → (flow_beq a b ≡ true) ↔ (a ≡ b)
flow_beq_iff a b = ground (arith, addr_beq_iff a.remote b.remote)

instance abbrev pub flow_eq : Eq Flow
flow_eq = record { beq = flow_beq; beq_iff = flow_beq_iff }

abbrev pub count_of : Option ℕ → ℕ
count_of none = 0
count_of (some n) = n

-- The loop of `main` over what the driver reports, as long as it runs; `none` is a read error.
unfoldable pub scan : Dict Flow ℕ → List (Option Flow) → Dict Flow ℕ
scan endpoints [] = endpoints
scan endpoints (none ∷ events) = scan endpoints events
scan endpoints (some flow ∷ events) =
    scan (insert flow ((count_of (get flow endpoints) + 1) % 2 ^ 64) endpoints) events

abbrev pub proto_name : ℕ → Bytes
proto_name p = if p == 6 then codes "tcp" else if p == 17 then codes "udp" else codes "?"

-- The grouping of `suggest_rules`.
pub record Host : Type 0 where
  pub proto : ℕ
  pub ip : IpAddr

abbrev pub host_beq : Host → Host → Bool
host_beq a b = a.proto == b.proto && ip_beq a.ip b.ip

pub host_beq_iff : (a b : Host) → (host_beq a b ≡ true) ↔ (a ≡ b)
host_beq_iff a b = ground (arith, ip_beq_iff a.ip b.ip)

instance abbrev pub host_eq : Eq Host
host_eq = record { beq = host_beq; beq_iff = host_beq_iff }

abbrev pub host_of : Flow → Host
host_of flow = record { proto = flow.proto; ip = flow.remote.ip }

abbrev pub ports_of : Option (List ℕ) → List ℕ
ports_of none = []
ports_of (some ports) = ports

-- `entry(…).or_default().push(port)`
unfoldable pub push_port : Flow → Dict Host (List ℕ) → Dict Host (List ℕ)
push_port flow by_ip =
    insert (host_of flow) (ports_of (get (host_of flow) by_ip) ++ (flow.remote.port ∷ [])) by_ip

unfoldable pub group : Dict Flow ℕ → Dict Host (List ℕ)
group [] = []
group ((flow, count) ∷ endpoints) = push_port flow (group endpoints)

-- `iter().min()` and `iter().max()`
unfoldable pub lowest : List ℕ → Option ℕ
lowest [] = none
lowest (p ∷ ps) = elim (lowest ps) [ none ↦ some p | some q ↦ some (if ltb q p then q else p) ]

unfoldable pub highest : List ℕ → Option ℕ
highest [] = none
highest (p ∷ ps) = elim (highest ps) [ none ↦ some p | some q ↦ some (if leb p q then q else p) ]

-- The values that are printed for a host.
pub record Suggestion : Type 0 where
  pub dest_ip : IpAddr
  pub dest_port : ℕ
  pub protocol : Bytes
  pub capture_dst_port_lo : ℕ
  pub capture_dst_port_hi : ℕ

unfoldable pub suggest : Host → List ℕ → Option Suggestion
suggest host ports = elim (lowest ports) [
  | none ↦ none
  | some lo ↦ elim (highest ports) [
    | none ↦ none
    | some hi ↦ some (record {
      dest_ip = host.ip;
      dest_port = lo;
      protocol = proto_name host.proto;
      capture_dst_port_lo = lo;
      capture_dst_port_hi = hi;
    })
  ]
]

-- The loop that prints; the `unwrap` of a missing port would panic, which is `none`.
unfoldable pub suggest_all : Dict Host (List ℕ) → Option (List Suggestion)
suggest_all [] = some []
suggest_all ((host, ports) ∷ by_ip) = elim (suggest host ports) [
  | none ↦ none
  | some s ↦ elim (suggest_all by_ip) [ none ↦ none | some rest ↦ some (s ∷ rest) ]
]

unfoldable pub suggest_rules : Dict Flow ℕ → Option (List Suggestion)
suggest_rules endpoints = suggest_all (group endpoints)
