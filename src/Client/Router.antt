-- ===== src/Client/Router.antt =====
-- crates/gr-client/src/router.rs and the resolver and the seeding of smart.rs. Times in milliseconds are
-- `f64`, taken as an interface; the region of an address is what the AWS table answers, `region_for`.
-- The monotonic clock is the argument `at`, in seconds.
pub mod Millis
pub mod Best
pub mod Pick
pub mod Smart
use lowping.Base.{
  ℕ, ◌+◌, ◌-◌, ◌≡◌, Bool, true, false, List, [], ◌∷◌, ◌++◌, length, take, drop, get_elem?, Option,
  none, some, ltb, leb, if◌then◌else◌,
}
use lowping.Base.Bytes.{Bytes}
use lowping.Base.Eq.{nat_eq, list_eq}
use lowping.Base.Dict.{Dict, get, insert}
use lowping.Net.{IpAddr, v4, ip_eq, SocketAddr}
use lowping.Capture.{RouteAction, passthrough, rewrite_to}
use mathlib.Core.List.{reverse}
use Millis.{Float}

pub data Route : Type 0 where
  direct : Route
  via_bridge : ℕ → Route

module _ (f : Float) where
  open f use {F, add, lt, infinity}

  pub record BridgeEntry : Type 0 where
    pub name : Bytes
    pub endpoint : SocketAddr
    pub bridge_x25519_pubkey_hex : Bytes
    pub license_token : Bytes
    pub listen_port : ℕ
    pub region_rtt_ms : Dict Bytes F

  pub record Decision : Type 0 where
    pub route : Route
    pub decided_at : ℕ
    pub direct_rtt_ms : F
    pub via_bridge_rtt_ms : F

  pub record DecisionLog : Type 0 where
    pub at : ℕ
    pub dest : SocketAddr
    pub region : Option Bytes
    pub direct_rtt_ms : F
    pub via_bridge_rtt_ms : F
    pub route : Route
    pub bridge_name : Option Bytes

  -- `recent` has the oldest entry first.
  pub record Router : Type 0 where
    pub bridges : List BridgeEntry
    pub client_to_bridge_ms : Dict Bytes F
    pub cache : Dict IpAddr Decision
    pub recent : List DecisionLog
    pub recent_capacity : ℕ
    pub margin_ms : F
    pub reroute_interval : ℕ

  unfoldable pub new_router : F → List BridgeEntry → Router
  new_router two bridges = record {
    bridges = bridges;
    client_to_bridge_ms = [];
    cache = [];
    recent = [];
    recent_capacity = 64;
    margin_ms = two;
    reroute_interval = 60;
  }

  unfoldable pub recent_decisions : Router → ℕ → List DecisionLog
  recent_decisions r n = take n (reverse r.recent)

  unfoldable pub record_client_to_bridge : Bytes → F → Router → Router
  record_client_to_bridge bridge_name rtt_ms r = record r {
    client_to_bridge_ms = insert bridge_name rtt_ms r.client_to_bridge_ms;
  }

  -- What the loop of `pick` takes a bridge for: `none` is a `continue`.
  unfoldable pub candidate : Dict Bytes F → Option Bytes → BridgeEntry → Option F
  candidate pings region b = elim (get b.name pings) [
    | none ↦ none
    | some to_b ↦ elim region [
      | none ↦ none
      | some r ↦ elim (get r b.region_rtt_ms) [ none ↦ none | some from_b ↦ some (add to_b from_b) ]
    ]
  ]

  abbrev pub better : Option F → ℕ → Option (ℕ × F) → Option (ℕ × F)
  better none idx best = best
  better (some total) idx none = some (idx, total)
  better (some total) idx (some (i, t)) = if lt total t then some (idx, total) else some (i, t)

  unfoldable pub best_bridge :
      Dict Bytes F → Option Bytes → ℕ → Option (ℕ × F) → List BridgeEntry → Option (ℕ × F)
  best_bridge pings region idx best [] = best
  best_bridge pings region idx best (b ∷ bs) =
      best_bridge pings region (idx + 1) (better (candidate pings region b) idx best) bs

  unfoldable pub choose : F → Option (ℕ × F) → F → Route × F
  choose margin none direct_rtt_ms = (direct, infinity)
  choose margin (some (idx, total)) direct_rtt_ms =
      if lt (add total margin) direct_rtt_ms then (via_bridge idx, total) else (direct, total)

  -- The index is in range for every route that `choose` gives.
  abbrev pub bridge_name : List BridgeEntry → Route → Option Bytes
  bridge_name bridges direct = none
  bridge_name bridges (via_bridge i) = elim (get_elem? bridges i) [
    | none ↦ none
    | some b ↦ some b.name
  ]

  unfoldable pub push_recent : ℕ → DecisionLog → List DecisionLog → List DecisionLog
  push_recent capacity log recent =
      (if leb capacity (length recent) then drop 1 recent else recent) ++ (log ∷ [])

  -- `pick` where the cache does not answer.
  unfoldable pub decide : Router → Option Bytes → SocketAddr → F → ℕ → Route × Router
  decide r region dest direct_rtt_ms at =
      let (route, via_total) =
        choose r.margin_ms (best_bridge r.client_to_bridge_ms region 0 none r.bridges)
          direct_rtt_ms in
      let decision : Decision = record {
        route = route;
        decided_at = at;
        direct_rtt_ms = direct_rtt_ms;
        via_bridge_rtt_ms = via_total;
      } in
      let log : DecisionLog = record {
        at = at;
        dest = dest;
        region = region;
        direct_rtt_ms = direct_rtt_ms;
        via_bridge_rtt_ms = via_total;
        route = route;
        bridge_name = bridge_name r.bridges route;
      } in
      (
        route,
        record r {
          cache = insert dest.ip decision r.cache;
          recent = push_recent r.recent_capacity log r.recent;
        },
      )

  module _ (region_for : IpAddr → Option Bytes) where
    unfoldable pub pick : Router → SocketAddr → F → ℕ → Route × Router
    pick r dest direct_rtt_ms at = elim (get dest.ip r.cache) [
      | none ↦ decide r (region_for dest.ip) dest direct_rtt_ms at
      | some d ↦
          if ltb (at - d.decided_at) r.reroute_interval
          then (d.route, r)
          else decide r (region_for dest.ip) dest direct_rtt_ms at
    ]

    abbrev pub localhost : IpAddr
    localhost = v4 (127 ∷ 0 ∷ 0 ∷ 1 ∷ [])

    unfoldable pub direct_estimate : Dict Bytes F → IpAddr → F
    direct_estimate table ip = elim (region_for ip) [
      | none ↦ infinity
      | some r ↦ elim (get r table) [ none ↦ infinity | some rtt ↦ rtt ]
    ]

    -- `SmartResolver::resolve`. `none` is the panic on an index out of range.
    unfoldable pub resolve : Dict Bytes F → Router → SocketAddr → ℕ → Option RouteAction × Router
    resolve table r dst at =
        let (route, r') = pick r dst (direct_estimate table dst.ip) at in
        elim route [
          | direct ↦ (some passthrough, r')
          | via_bridge idx ↦ elim (get_elem? r.bridges idx) [
            | none ↦ (none, r')
            | some b ↦ (some (rewrite_to (record { ip = localhost; port = b.listen_port })), r')
          ]
        ]

  -- The seeding in `start_smart`, over the estimate that its table gives for a name.
  unfoldable pub seed : (Bytes → F) → List BridgeEntry → Router → Router
  seed est [] r = r
  seed est (b ∷ bs) r = seed est bs (record_client_to_bridge b.name (est b.name) r)
