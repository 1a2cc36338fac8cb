-- ===== src/Client/Modes.antt =====
-- crates/gr-client/src: what the client starts for its configuration, on Windows: the modes of
-- forwarder.rs, the listeners of smart.rs, and the interface's mode of main.rs. Times are taken as in
-- the router; `spawn` is what the spawn of the capture's thread answers.
pub mod Rules
pub mod Seeding
pub mod Reading
pub mod Written
use Prim.Native.String.{String}
use lowping.Base.{
  ℕ, ◌≡◌, Bool, true, false, ◌||◌, List, [], ◌∷◌, map, length, Option, none, some, Result, ok, err,
  bail_if, ok_or, map_err, ◌>>=◌, ◌>>◌, ◌==◌, if◌then◌else◌,
}
use lowping.Base.Bytes.{Bytes}
use lowping.Base.Eq.{nat_eq, list_beq}
use lowping.Base.Dict.{Dict}
use lowping.Net.{IpAddr, v4, SocketAddr}
use lowping.Net.Show.{codes}
use lowping.Capture.{Protocol, tcp, udp, RedirectRule, CaptureError}
use lowping.Capture.Switch.{WinDivertCapture, with_rules, with_resolver, Backend, start}
use lowping.Client.Router.{BridgeEntry, Router, new_router, seed}
use lowping.Client.Router.Millis.{Float}

pub record Rule : Type 0 where
  pub listen : SocketAddr
  pub bridge : SocketAddr
  pub bridge_x25519_pubkey_hex : Bytes
  pub license_token : Bytes
  pub dest_ip : IpAddr
  pub dest_port : ℕ
  pub protocol : Bytes
  pub udp_idle_secs : ℕ
  pub capture : Bool
  pub capture_dst_port_lo : Option ℕ
  pub capture_dst_port_hi : Option ℕ
  pub capture_dst_ip : Option IpAddr

pub data RunError : Type 0 where
  listen_without_rules : RunError
  no_bridges : RunError
  no_smart_routing : RunError
  capture_failed : CaptureError → RunError
  unknown_protocol : Bytes → RunError

abbrev pub unwrap_or {ℓ} : {A : Type ℓ} → Option A → A → A
unwrap_or none d = d
unwrap_or (some a) d = a

-- `match rule.protocol.as_str()`
abbrev pub protocol_of : Bytes → Option Protocol
protocol_of name =
    if list_beq name (codes "tcp")
    then some tcp
    else if list_beq name (codes "udp")
    then some udp
    else none

-- The rule that is pushed in the loop of `install_capture`.
abbrev pub redirect_rule : Rule → Protocol → RedirectRule
redirect_rule rule protocol =
    let lo = unwrap_or rule.capture_dst_port_lo rule.dest_port in
    record {
      protocol = protocol;
      dst_ip = unwrap_or rule.capture_dst_ip rule.dest_ip;
      dst_port_lo = lo;
      dst_port_hi = unwrap_or rule.capture_dst_port_hi lo;
      redirect_to_ip = rule.listen.ip;
      redirect_to_port = rule.listen.port;
    }

unfoldable pub capture_rules : List Rule → List RedirectRule
capture_rules [] = []
capture_rules (rule ∷ rules) =
    let rest = capture_rules rules in
    if rule.capture
    then elim (protocol_of rule.protocol) [
      | none ↦ rest
      | some protocol ↦ redirect_rule rule protocol ∷ rest
    ]
    else rest

abbrev pub fresh : Backend
fresh = record { running = false; handle = false }

unfoldable pub install_capture :
    List Rule → Option String → Result RunError (Option (WinDivertCapture (List RedirectRule)))
install_capture rules spawn = if length (capture_rules rules) == 0 then ok none else do
  let cap = with_rules (capture_rules rules) []
  map_err capture_failed (start cap.redirect_targets cap.bridge_endpoints spawn fresh).0
  ok (some cap)

-- `run_rule`: the task of a rule.
pub data RuleTask : Type 0 where
  tcp_task udp_task : RuleTask

unfoldable pub run_rule : Rule → Result RunError RuleTask
run_rule rule = elim (protocol_of rule.protocol) [
  | none ↦ err (unknown_protocol rule.protocol)
  | some protocol ↦ elim protocol [ tcp ↦ ok tcp_task | udp ↦ ok udp_task ]
]

-- `--listen` replaces the first rule's address.
unfoldable pub override_listen : Option SocketAddr → List Rule → Result RunError (List Rule)
override_listen none rules = ok rules
override_listen (some addr) [] = err listen_without_rules
override_listen (some addr) (rule ∷ rules) = ok (record rule { listen = addr } ∷ rules)

module _ (f : Float) (lit : ℕ → f.F) where
  open f use {F}

  pub record SmartRoutingConfig : Type 0 where
    pub bridges : List (BridgeEntry f)
    pub direct_rtt_ms : Dict Bytes F
    pub margin_ms : F

  pub record Config : Type 0 where
    pub rules : List Rule
    pub smart_routing : Option SmartRoutingConfig

  -- The table of placeholder estimates, with `f64` literals as a parameter.
  unfoldable pub estimate : Bytes → F
  estimate name =
      if list_beq name (codes "dallas")
      then lit 22
      else if list_beq name (codes "nj")
      then lit 35
      else if list_beq name (codes "seattle") || list_beq name (codes "sea")
      then lit 50
      else if list_beq name (codes "frankfurt") || list_beq name (codes "fra")
      then lit 110
      else lit 40

  abbrev pub loopback : ℕ → SocketAddr
  loopback port = record { ip = v4 (127 ∷ 0 ∷ 0 ∷ 1 ∷ []); port = port }

  -- `SmartResolver`: the shared router and the table of direct times.
  pub record SmartResolver : Type 0 where
    pub router : Router f
    pub direct_rtt_ms : Dict Bytes F

  abbrev pub listen_addr : BridgeEntry f → SocketAddr
  listen_addr b = loopback b.listen_port

  -- The listeners that run: each bridge with its local address.
  abbrev pub Listeners : Type 0
  Listeners = List (BridgeEntry f × SocketAddr)

  -- `start_smart`: the router that is returned, and the listeners that are spawned.
  unfoldable pub start_smart : SmartRoutingConfig → Router f × Listeners
  start_smart cfg = (
    seed f estimate cfg.bridges (new_router f (lit 2) cfg.bridges),
    map (λ b. (b, listen_addr b)) cfg.bridges,
  )

  -- What smart mode leaves running: the capture with its resolver, the router that `start_smart`
  -- returns, and the listeners.
  pub record Smart : Type 0 where
    pub capture : WinDivertCapture SmartResolver
    pub router : Router f
    pub listeners : Listeners

  abbrev pub endpoint_of : BridgeEntry f → SocketAddr
  endpoint_of b = b.endpoint

  abbrev pub smart_capture : SmartRoutingConfig → Router f → WinDivertCapture SmartResolver
  smart_capture cfg router =
      with_resolver (record { router = router; direct_rtt_ms = cfg.direct_rtt_ms })
        (map listen_addr cfg.bridges) (map endpoint_of cfg.bridges)

  unfoldable pub run_smart_mode : SmartRoutingConfig → Option String → Result RunError Smart
  run_smart_mode cfg spawn = do
    bail_if (length cfg.bridges == 0) no_bridges
    let capture = smart_capture cfg (new_router f (lit 2) cfg.bridges)
    map_err capture_failed (start capture.redirect_targets capture.bridge_endpoints spawn fresh).0
    let started = start_smart cfg
    ok (record { capture = capture; router = started.0; listeners = started.1 })

  -- `run_with_tui`: the router is the resolver's own, and it is seeded once the capture runs.
  unfoldable pub run_with_tui : Config → Option String → Result RunError Smart
  run_with_tui config spawn = do
    cfg ← ok_or config.smart_routing no_smart_routing
    let router = new_router f (lit 2) cfg.bridges
    let capture = smart_capture cfg router
    map_err capture_failed (start capture.redirect_targets capture.bridge_endpoints spawn fresh).0
    let seeded = seed f estimate cfg.bridges router
    ok (record {
      capture = record capture {
        resolver = record { router = seeded; direct_rtt_ms = cfg.direct_rtt_ms };
      };
      router = seeded;
      listeners = map (λ b. (b, listen_addr b)) cfg.bridges;
    })

  -- What `run` leaves running.
  pub data Running : Type 0 where
    smart : Smart → Running
    rules :
        Option (WinDivertCapture (List RedirectRule)) → List (Result RunError RuleTask) → Running

  unfoldable pub run : Config → Option SocketAddr → Option String → Result RunError Running
  run config listen_override spawn = do
    rules_now ← override_listen listen_override config.rules
    elim config.smart_routing [
      | some smart_cfg ↦ do s ← run_smart_mode smart_cfg spawn; ok (smart s)
      | none ↦ do cap ← install_capture rules_now spawn; ok (rules cap (map run_rule rules_now))
    ]
