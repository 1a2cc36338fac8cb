-- ===== src/Client/Router/Smart.antt =====
-- The resolver of smart.rs: it never panics, and it redirects to listeners of bridges only.
use lowping.Base.{
  ℕ, zero, suc, ◌<◌, ◌≡◌, ◌⊎◌, inl, inr, refl, ap, ◌∙◌, List, [], ◌∷◌, get_elem?, Option, some,
  arith, All, length,
}
use lowping.Base.Bytes.{Bytes}
use lowping.Base.Dict.{Dict, insert-All, get-All}
use lowping.Net.{IpAddr, ip_eq, SocketAddr}
use lowping.Capture.{passthrough, rewrite_to}
use lowping.Client.Router.Millis.{Float}
use lowping.Client.Router.Best.{best_bridge_unmeasured}
use lowping.Client.Router.Pick.{IsRouter, pick-cases, pick-IsRouter}
use lowping.Client.Router.{
  BridgeEntry, Route, Router, direct, via_bridge, choose, decide, pick, resolve, localhost,
  direct_estimate,
}

get_elem?-of_lt :
    {A : Type 0} (xs : List A) (i : ℕ) → i < length xs → (x : A) × (get_elem? xs i ≡ some x)
get_elem?-of_lt [] i h = absurd (omega arith)
get_elem?-of_lt (x ∷ xs) zero h = (x, refl)
get_elem?-of_lt (x ∷ xs) (suc i) h = get_elem?-of_lt xs i (omega arith)

module _ (f : Float) (region_for : IpAddr → Option Bytes) where
  open f use {F}

  resolve-direct :
      (table : Dict Bytes F) (r : Router f) (dst : SocketAddr) (at : ℕ)
      → (pick f region_for r dst (direct_estimate f region_for table dst.ip) at).0 ≡ direct
      → resolve f region_for table r dst at ≡ (
        some passthrough,
        (pick f region_for r dst (direct_estimate f region_for table dst.ip) at).1,
      )
  unfolding resolve
  resolve-direct table r dst at e = rw (e, resolve) refl

  resolve-via_bridge :
      (table : Dict Bytes F) (r : Router f) (dst : SocketAddr) (at i : ℕ) (b : BridgeEntry f)
      → (pick f region_for r dst (direct_estimate f region_for table dst.ip) at).0 ≡ via_bridge i
      → get_elem? r.bridges i ≡ some b
      → resolve f region_for table r dst at ≡ (
        some (rewrite_to (record { ip = localhost f region_for; port = b.listen_port })),
        (pick f region_for r dst (direct_estimate f region_for table dst.ip) at).1,
      )
  unfolding resolve
  resolve-via_bridge table r dst at i b e there = rw (e, resolve, there) refl

  route_cases : (route : Route) → (route ≡ direct) ⊎ ((i : ℕ) × (route ≡ via_bridge i))
  route_cases direct = inl refl
  route_cases (via_bridge i) = inr (i, refl)

  -- With a well-formed router the resolver gives an answer, so its index never is out of range: the packet
  -- passes, or it is redirected to the local listener of one of the bridges. The router stays well
  -- formed.
  pub resolve_total :
      (table : Dict Bytes F) (r : Router f) (dst : SocketAddr) (at : ℕ)
      → IsRouter f r
      → (((resolve f region_for table r dst at).0 ≡ some passthrough)
          ⊎ ((i : ℕ) × (b : BridgeEntry f) × (get_elem? r.bridges i ≡ some b)
              × ((resolve f region_for table r dst at).0
                  ≡ some
                      (rewrite_to (record { ip = localhost f region_for; port = b.listen_port })))))
        × IsRouter f (resolve f region_for table r dst at).1
  resolve_total table r dst at v =
      let rtt = direct_estimate f region_for table dst.ip in
      let (fine, after, same) = pick-IsRouter f region_for r dst rtt at v in
      elim (route_cases (pick f region_for r dst rtt at).0) [
        | inl e ↦
            let done = resolve-direct table r dst at e in (inl (ap (λ p. p.0) done), rw done after)
        | inr (i, e) ↦
            let (b, there) = get_elem?-of_lt r.bridges i (rw e at fine) in
            let done = resolve-via_bridge table r dst at i b e there in
            (inr (i, b, there, ap (λ p. p.0) done), rw done after)
      ]

  -- Its bridges stay the same.
  pub resolve-bridges :
      (table : Dict Bytes F) (r : Router f) (dst : SocketAddr) (at : ℕ)
      → IsRouter f r
      → (resolve f region_for table r dst at).1.bridges ≡ r.bridges
  resolve-bridges table r dst at v =
      let rtt = direct_estimate f region_for table dst.ip in
      let (fine, _, same) = pick-IsRouter f region_for r dst rtt at v in
      elim (route_cases (pick f region_for r dst rtt at).0) [
        | inl e ↦ ap (λ p. p.1.bridges) (resolve-direct table r dst at e) ∙ same
        | inr (i, e) ↦
            let (b, there) = get_elem?-of_lt r.bridges i (rw e at fine) in
            ap (λ p. p.1.bridges) (resolve-via_bridge table r dst at i b e there) ∙ same
      ]

  -- A router to which no client-to-bridge time was ever recorded.
  pub record Unmeasured (r : Router f) : Type 0 where
    pub no_pings : r.client_to_bridge_ms ≡ []
    pub all_direct : All (λ entry. entry.1.route ≡ direct) r.cache

  decide-Unmeasured :
      (r : Router f) (region : Option Bytes) (dest : SocketAddr) (rtt : F) (at : ℕ)
      → Unmeasured r
      → ((decide f r region dest rtt at).0 ≡ direct) × Unmeasured (decide f r region dest rtt at).1
  unfolding decide
  decide-Unmeasured r region dest rtt at u =
      let plain = u.no_pings in
      let nothing = best_bridge_unmeasured f region 0 r.bridges in
      let route : (decide f r region dest rtt at).0 ≡ direct =
        rw (plain, nothing) (unfold choose in refl) in
      (
        route,
        record {
          no_pings = plain;
          all_direct = insert-All (λ d. d.route ≡ direct) dest.ip _ r.cache route u.all_direct;
        },
      )

  -- A resolver whose router has no client-to-bridge time lets every packet pass, for ever.
  pub resolve-Unmeasured :
      (table : Dict Bytes F) (r : Router f) (dst : SocketAddr) (at : ℕ)
      → Unmeasured r
      → ((resolve f region_for table r dst at).0 ≡ some passthrough)
        × Unmeasured (resolve f region_for table r dst at).1
  resolve-Unmeasured table r dst at u =
      let rtt = direct_estimate f region_for table dst.ip in
      elim (pick-cases f region_for r dst rtt at) [
        | inl fresh ↦
            let (route, after) = decide-Unmeasured r (region_for dst.ip) dst rtt at u in
            let done = resolve-direct table r dst at (ap (λ p. p.0) fresh ∙ route) in
            (ap (λ p. p.0) done, rw (done, fresh) after)
        | inr (d, found, young, cached) ↦
            let old = get-All (λ d. d.route ≡ direct) dst.ip d r.cache u.all_direct found in
            let done = resolve-direct table r dst at (ap (λ p. p.0) cached ∙ old) in
            (ap (λ p. p.0) done, rw (done, cached) u)
      ]
