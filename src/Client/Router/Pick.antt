-- ===== src/Client/Router/Pick.antt =====
-- `pick`: the cache, the log of decisions and the indices of bridges.
use lowping.Base.{
  ℕ, ◌-◌, ◌≤◌, ◌<◌, ◌≡◌, ◌⊎◌, inl, inr, refl, ap, ◌∙◌, true, false, List, [], ◌∷◌, get_elem?,
  Option, none, some, Bool-cases, Option-cases, arith, All, length, drop, length-drop,
  length-append, ltb, leb,
}
use lowping.Base.Bytes.{Bytes}
use lowping.Base.Dict.{Dict, get, get-insert_same, insert-All, get-All}
use lowping.Net.{IpAddr, ip_eq, SocketAddr}
use lowping.Client.Router.Millis.{Float}
use lowping.Client.Router.Best.{IsNumber, choose-best_bridge, choose-lt}
use lowping.Client.Router.{
  BridgeEntry, Route, Router, Decision, DecisionLog, direct, via_bridge, candidate, best_bridge,
  choose, push_recent, decide, pick, new_router,
}

module _ (f : Float) where
  open f use {F, add, lt, infinity}

  -- A route names an existing bridge.
  abbrev pub InRange : ℕ → Route → Type 0
  InRange n direct = Unit {0}
  InRange n (via_bridge i) = i < n

  -- The log is bounded, and every bridge that the cache names exists.
  pub record IsRouter (r : Router f) : Type 0 where
    pub bounded : length r.recent ≤ r.recent_capacity
    pub capacity : 1 ≤ r.recent_capacity
    pub in_range : All (λ entry. InRange (length r.bridges) entry.1.route) r.cache

  push_recent-bounded :
      (capacity : ℕ) (log : DecisionLog f) (recent : List (DecisionLog f))
      → length recent ≤ capacity
      → 1 ≤ capacity
      → length (push_recent f capacity log recent) ≤ capacity
  unfolding push_recent
  push_recent-bounded capacity log recent h room =
      elim (Bool-cases (leb capacity (length recent))) [
        | inl full ↦
            rw full (omega (arith, length-append (drop 1 recent) (log ∷ []), length-drop 1 recent))
        | inr free ↦
            let shorter : length recent < capacity = ground arith in
            rw free (omega (arith, length-append recent (log ∷ [])))
      ]

  choose-InRange :
      (pings : Dict Bytes F) (region : Option Bytes) (bs : List (BridgeEntry f)) (margin rtt : F)
      (route : Route)
      → (choose f margin (best_bridge f pings region 0 none bs) rtt).0 ≡ route
      → InRange (length bs) route
  choose-InRange pings region bs margin rtt direct e = tt
  choose-InRange pings region bs margin rtt (via_bridge i) e =
      choose-lt f pings region bs margin rtt i e

  decide-IsRouter :
      (r : Router f) (region : Option Bytes) (dest : SocketAddr) (rtt : F) (at : ℕ)
      → IsRouter r
      → InRange (length r.bridges) (decide f r region dest rtt at).0
        × IsRouter (decide f r region dest rtt at).1
        × ((decide f r region dest rtt at).1.bridges ≡ r.bridges)
  unfolding decide
  decide-IsRouter r region dest rtt at v =
      let fine =
        choose-InRange r.client_to_bridge_ms region r.bridges r.margin_ms rtt
          (decide f r region dest rtt at).0 refl in
      (
        fine,
        record {
          bounded = push_recent-bounded r.recent_capacity _ r.recent v.bounded v.capacity;
          capacity = v.capacity;
          in_range =
              insert-All (λ d. InRange (length r.bridges) d.route) dest.ip _ r.cache fine
                v.in_range;
        },
        refl,
      )

  -- A fresh router is well formed, and a measurement keeps it so.
  pub new_router-IsRouter : (two : F) (bs : List (BridgeEntry f)) → IsRouter (new_router f two bs)
  unfolding new_router
  new_router-IsRouter two bs = record {
    bounded = omega arith;
    capacity = omega arith;
    in_range = tt;
  }

  module _ (region_for : IpAddr → Option Bytes) where
    -- A pick is a fresh decision, or the cached one within the interval, which changes nothing.
    pub pick-cases :
        (r : Router f) (dest : SocketAddr) (rtt : F) (at : ℕ)
        → (pick f region_for r dest rtt at ≡ decide f r (region_for dest.ip) dest rtt at)
          ⊎ ((d : Decision f) × (get dest.ip r.cache ≡ some d)
              × (ltb (at - d.decided_at) r.reroute_interval ≡ true)
              × (pick f region_for r dest rtt at ≡ (d.route, r)))
    unfolding pick
    pick-cases r dest rtt at = elim (Option-cases (get dest.ip r.cache)) [
      | inl unknown ↦ inl (rw (unknown, pick) refl)
      | inr (d, found) ↦ elim (Bool-cases (ltb (at - d.decided_at) r.reroute_interval)) [
        | inr old ↦ inl (rw (found, pick, old) refl)
        | inl young ↦ inr (d, found, young, rw (found, pick, young) refl)
      ]
    ]

    -- A pick keeps the log within its capacity and the cache to bridges that exist, and gives a route to
    -- such a bridge, or direct.
    pub pick-IsRouter :
        (r : Router f) (dest : SocketAddr) (rtt : F) (at : ℕ)
        → IsRouter r
        → InRange (length r.bridges) (pick f region_for r dest rtt at).0
          × IsRouter (pick f region_for r dest rtt at).1
          × ((pick f region_for r dest rtt at).1.bridges ≡ r.bridges)
    pick-IsRouter r dest rtt at v = elim (pick-cases r dest rtt at) [
      | inl fresh ↦ rw fresh (decide-IsRouter r (region_for dest.ip) dest rtt at v)
      | inr (d, found, young, cached) ↦ rw cached (
        get-All (λ d. InRange (length r.bridges) d.route) dest.ip d r.cache v.in_range found,
        v,
        refl,
      )
    ]

    pick-miss :
        (r : Router f) (dest : SocketAddr) (rtt : F) (at : ℕ)
        → get dest.ip r.cache ≡ none
        → pick f region_for r dest rtt at ≡ decide f r (region_for dest.ip) dest rtt at
    unfolding pick
    pick-miss r dest rtt at unknown = rw (unknown, pick) refl

    pick-hit :
        (r : Router f) (dest : SocketAddr) (rtt : F) (at : ℕ) (d : Decision f)
        → get dest.ip r.cache ≡ some d
        → ltb (at - d.decided_at) r.reroute_interval ≡ true
        → pick f region_for r dest rtt at ≡ (d.route, r)
    unfolding pick
    pick-hit r dest rtt at d found young = rw (found, pick, young) refl

    decide-cache :
        (r : Router f) (region : Option Bytes) (dest : SocketAddr) (rtt : F) (at : ℕ)
        → (d : Decision f) × (get dest.ip (decide f r region dest rtt at).1.cache ≡ some d)
          × (d.route ≡ (decide f r region dest rtt at).0)
          × (d.decided_at ≡ at)
          × ((decide f r region dest rtt at).1.reroute_interval ≡ r.reroute_interval)
    unfolding decide
    decide-cache r region dest rtt at = (_, get-insert_same dest.ip _ r.cache, refl, refl, refl)

    -- Within the interval a second pick for an address gives the route of the first, whatever the direct
    -- time is then and whatever was measured in between.
    pub pick-pick :
        (r : Router f) (dest dest' : SocketAddr) (rtt rtt' : F) (at at' : ℕ) (pings : Dict Bytes F)
        → get dest.ip r.cache ≡ none
        → dest'.ip ≡ dest.ip
        → at' - at < r.reroute_interval
        → let (route, r') = pick f region_for r dest rtt at in
          (pick f region_for (record r' { client_to_bridge_ms = pings }) dest' rtt' at').0 ≡ route
    pick-pick r dest dest' rtt rtt' at at' pings unknown same soon =
        let first = pick-miss r dest rtt at unknown in
        let (d, found, route, time, interval) = decide-cache r (region_for dest.ip) dest rtt at in
        let young : ltb (at' - d.decided_at) r.reroute_interval ≡ true = ground arith in
        rw first (
          ap (λ p. p.0)
            (pick-hit
              (record (decide f r (region_for dest.ip) dest rtt at).1 {
                client_to_bridge_ms = pings;
              })
              dest' rtt' at' d (rw same found) (rw interval young))
          ∙ route)

    -- A new decision for a bridge: that bridge's time to the destination's region, with the margin, is
    -- below the direct time; and no bridge has a smaller one, if none of the totals is NaN.
    pub pick-via_bridge :
        (r : Router f) (dest : SocketAddr) (rtt c : F) (at i k : ℕ) (a : BridgeEntry f)
        → get dest.ip r.cache ≡ none
        → All (λ b. IsNumber f (candidate f r.client_to_bridge_ms (region_for dest.ip) b)) r.bridges
        → (pick f region_for r dest rtt at).0 ≡ via_bridge i
        → get_elem? r.bridges k ≡ some a
        → candidate f r.client_to_bridge_ms (region_for dest.ip) a ≡ some c
        → (b : BridgeEntry f) × (t : F) × (get_elem? r.bridges i ≡ some b)
          × (candidate f r.client_to_bridge_ms (region_for dest.ip) b ≡ some t)
          × (lt (add t r.margin_ms) rtt ≡ true)
          × (lt c t ≡ false)
    unfolding decide
    pick-via_bridge r dest rtt c at i k a unknown numbers e at_k worth =
        elim (pick-cases r dest rtt at) [
          | inr (d, found, young, cached) ↦ absurd cc
          | inl fresh ↦
              choose-best_bridge f r.client_to_bridge_ms (region_for dest.ip) r.bridges r.margin_ms
                rtt c i k a numbers (rw fresh at e) at_k worth
        ]
