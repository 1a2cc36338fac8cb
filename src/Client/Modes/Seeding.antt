-- ===== src/Client/Modes/Seeding.antt =====
-- The router of the resolver in smart mode and under the interface: what it has measured, and where it
-- can send packets.
use Prim.Native.String.{String}
use lowping.Base.{
  ℕ, zero, suc, ◌≡◌, ◌⊎◌, refl, sym, ap, ◌∙◌, List, [], ◌∷◌, map, length, get_elem?, All, Option,
  some, Result-cases, Bool-cases, ok, inl, inr, arith, ◌==◌,
}
use lowping.Base.Bytes.{Bytes}
use lowping.Base.Eq.{list_eq, nat_eq}
use lowping.Base.Dict.{get, get-insert, get-insert_same}
use lowping.Net.{IpAddr, SocketAddr}
use lowping.Capture.{RouteAction, passthrough, rewrite_to}
use lowping.Capture.Switch.{with_resolver, start}
use lowping.Client.Router.{BridgeEntry, Router, new_router, seed, record_client_to_bridge, resolve}
use lowping.Client.Router.Millis.{Float}
use lowping.Client.Router.Pick.{IsRouter, new_router-IsRouter}
use lowping.Client.Router.Smart.{Unmeasured, resolve-Unmeasured, resolve_total, resolve-bridges}
use lowping.Client.Modes.{
  Config, SmartRoutingConfig, SmartResolver, Smart, estimate, fresh, listen_addr, run_smart_mode,
  run_with_tui, smart_capture, start_smart,
}

module _ (f : Float) (lit : ℕ → f.F) (region_for : IpAddr → Option Bytes) where
  open f use {F}

  -- The packets that the capture asks its resolver about, in order, with the answers.
  unfoldable pub resolve_all :
      SmartResolver f lit → List (SocketAddr × ℕ) → List (Option RouteAction)
  resolve_all s [] = []
  resolve_all s ((dst, at) ∷ packets) =
      let (answer, router) = resolve f region_for s.direct_rtt_ms s.router dst at in
      answer ∷ resolve_all (record s { router = router }) packets

  resolve_all-Unmeasured :
      (packets : List (SocketAddr × ℕ)) (s : SmartResolver f lit)
      → Unmeasured f region_for s.router
      → All (λ answer. answer ≡ some passthrough) (resolve_all s packets)
  unfolding resolve_all
  resolve_all-Unmeasured [] s u = tt
  resolve_all-Unmeasured ((dst, at) ∷ packets) s u =
      let (passes, after) = resolve-Unmeasured f region_for s.direct_rtt_ms s.router dst at u in
      (
        passes,
        resolve_all-Unmeasured packets
            (record s { router = (resolve f region_for s.direct_rtt_ms s.router dst at).1 }) after,
      )

  new_router-Unmeasured :
      (two : F) (bs : List (BridgeEntry f)) → Unmeasured f region_for (new_router f two bs)
  unfolding new_router
  new_router-Unmeasured two bs = record { no_pings = refl; all_direct = tt }

  run_smart_mode-eq-ok :
      (cfg : SmartRoutingConfig f lit) (spawn : Option String) (s : Smart f lit)
      → run_smart_mode f lit cfg spawn ≡ ok s
      → s.capture ≡ smart_capture f lit cfg (new_router f (lit 2) cfg.bridges)
  unfolding run_smart_mode
  run_smart_mode-eq-ok cfg spawn s e =
      let cap = smart_capture f lit cfg (new_router f (lit 2) cfg.bridges) in
      elim (Bool-cases (length cfg.bridges == 0)) [
        | inl empty ↦ absurd (ground arith)
        | inr present ↦
            elim (Result-cases (start cap.redirect_targets cap.bridge_endpoints spawn fresh).0) [
              | inr (x, failed) ↦ absurd (ground arith)
              | inl (u, started) ↦
                  let this : record {
                    capture = cap;
                    router = (start_smart f lit cfg).0;
                    listeners = (start_smart f lit cfg).1;
                  }
                      ≡ s =
                    ground arith in
                  ap (λ t. t.capture) (sym this)
            ]
      ]

  -- Where smart mode comes up, its resolver lets every packet pass, whatever the configuration and the
  -- packets are: the times are recorded in another router, the one that `start_smart` makes.
  pub run_smart_mode-passthrough :
      (cfg : SmartRoutingConfig f lit) (spawn : Option String) (s : Smart f lit)
      (packets : List (SocketAddr × ℕ))
      → run_smart_mode f lit cfg spawn ≡ ok s
      → All (λ answer. answer ≡ some passthrough) (resolve_all s.capture.resolver packets)
  run_smart_mode-passthrough cfg spawn s packets e = rw (run_smart_mode-eq-ok cfg spawn s e) (
      unfold with_resolver in
      resolve_all-Unmeasured packets _ (new_router-Unmeasured (lit 2) cfg.bridges))

  -- `seed` records the estimate of every bridge under its name, and nothing else.
  seed-known :
      (est : Bytes → F) (bs : List (BridgeEntry f)) (r : Router f) (name : Bytes)
      → get name r.client_to_bridge_ms ≡ some (est name)
      → get name (seed f est bs r).client_to_bridge_ms ≡ some (est name)
  unfolding seed record_client_to_bridge
  seed-known est [] r name e = e
  seed-known est (b ∷ bs) r name e =
      seed-known est bs (record_client_to_bridge f b.name (est b.name) r) name
        (elim (Bool-cases (list_eq.beq b.name name)) [
          | inl same ↦
              let at : b.name ≡ name = (list_eq.beq_iff b.name name).0 same in
              rw (← at) (get-insert_same b.name (est b.name) r.client_to_bridge_ms)
          | inr different ↦
              rw different at (get-insert b.name name (est b.name) r.client_to_bridge_ms) ∙ e
        ])

  seed-get :
      (est : Bytes → F) (bs : List (BridgeEntry f)) (r : Router f) (i : ℕ) (b : BridgeEntry f)
      → get_elem? bs i ≡ some b
      → get b.name (seed f est bs r).client_to_bridge_ms ≡ some (est b.name)
  unfolding seed record_client_to_bridge
  seed-get est [] r i b e = absurd cc
  seed-get est (c ∷ bs) r zero b e =
      let same : c ≡ b = ground arith in
      rw (← same) (
        seed-known est bs (record_client_to_bridge f c.name (est c.name) r) c.name
          (get-insert_same c.name (est c.name) r.client_to_bridge_ms))
  seed-get est (c ∷ bs) r (suc i) b e =
      seed-get est bs (record_client_to_bridge f c.name (est c.name) r) i b e

  seed-IsRouter :
      (est : Bytes → F) (bs : List (BridgeEntry f)) (r : Router f)
      → IsRouter f r
      → IsRouter f (seed f est bs r) × ((seed f est bs r).bridges ≡ r.bridges)
  unfolding seed record_client_to_bridge
  seed-IsRouter est [] r v = (v, refl)
  seed-IsRouter est (b ∷ bs) r v =
      seed-IsRouter est bs (record_client_to_bridge f b.name (est b.name) r)
        (record { bounded = v.bounded; capacity = v.capacity; in_range = v.in_range })

  run_with_tui-eq-ok :
      (config : Config f lit) (cfg : SmartRoutingConfig f lit) (spawn : Option String)
      (s : Smart f lit)
      → config.smart_routing ≡ some cfg
      → run_with_tui f lit config spawn ≡ ok s
      → let seeded = seed f (estimate f lit) cfg.bridges (new_router f (lit 2) cfg.bridges) in
        (s.capture.resolver ≡ record { router = seeded; direct_rtt_ms = cfg.direct_rtt_ms })
        × (s.router ≡ seeded)
        × (s.listeners ≡ map (λ b. (b, listen_addr f lit b)) cfg.bridges)
  unfolding run_with_tui
  run_with_tui-eq-ok config cfg spawn s given e =
      let cap = smart_capture f lit cfg (new_router f (lit 2) cfg.bridges) in
      let seeded = seed f (estimate f lit) cfg.bridges (new_router f (lit 2) cfg.bridges) in
      elim (Result-cases (start cap.redirect_targets cap.bridge_endpoints spawn fresh).0) [
        | inr (x, failed) ↦ absurd (ground arith)
        | inl (u, started) ↦
            let this : record {
              capture = record cap {
                resolver = record { router = seeded; direct_rtt_ms = cfg.direct_rtt_ms };
              };
              router = seeded;
              listeners = map (λ b. (b, listen_addr f lit b)) cfg.bridges;
            }
                ≡ s =
              ground arith in
            rw (← this) (refl, refl, refl)
      ]

  -- Where the interface's mode comes up, the resolver's router is the one that is shown, and it has the
  -- table's estimate for every bridge of the configuration.
  pub run_with_tui-seeded :
      (config : Config f lit) (cfg : SmartRoutingConfig f lit) (spawn : Option String)
      (s : Smart f lit)
      → config.smart_routing ≡ some cfg
      → run_with_tui f lit config spawn ≡ ok s
      → (s.capture.resolver.router ≡ s.router)
        × ((i : ℕ) (b : BridgeEntry f)
            → get_elem? cfg.bridges i ≡ some b
            → get b.name s.router.client_to_bridge_ms ≡ some (estimate f lit b.name))
  run_with_tui-seeded config cfg spawn s given e =
      let (resolver, router, _) = run_with_tui-eq-ok config cfg spawn s given e in
      (
        ap (λ r. r.router) resolver ∙ sym router,
        (λ i b at. rw router (seed-get (estimate f lit) cfg.bridges _ i b at)),
      )

  -- A packet passes, or goes to the address of a listener that runs.
  abbrev pub Served : List (BridgeEntry f × SocketAddr) → Option RouteAction → Type 0
  Served listeners answer =
      (answer ≡ some passthrough)
      ⊎ ((i : ℕ) × (b : BridgeEntry f) × (addr : SocketAddr) × (get_elem? listeners i
            ≡ some (b, addr))
          × (answer ≡ some (rewrite_to addr)))

  -- A bridge's listener, as the modes spawn it.
  abbrev pub listener : BridgeEntry f → BridgeEntry f × SocketAddr
  listener b = (b, listen_addr f lit b)

  get_elem?-map :
      (bs : List (BridgeEntry f)) (i : ℕ) (b : BridgeEntry f)
      → get_elem? bs i ≡ some b
      → get_elem? (map listener bs) i ≡ some (listener b)
  get_elem?-map [] i b e = absurd cc
  get_elem?-map (c ∷ bs) zero b e = let same : c ≡ b = ground arith in rw same refl
  get_elem?-map (c ∷ bs) (suc i) b e = get_elem?-map bs i b e

  resolve_all-Served :
      (packets : List (SocketAddr × ℕ)) (s : SmartResolver f lit) (bs : List (BridgeEntry f))
      → IsRouter f s.router
      → s.router.bridges ≡ bs
      → All (Served (map listener bs)) (resolve_all s packets)
  unfolding resolve_all
  resolve_all-Served [] s bs v same = tt
  resolve_all-Served ((dst, at) ∷ packets) s bs v same =
      let (answer, after) = resolve_total f region_for s.direct_rtt_ms s.router dst at v in
      let kept = resolve-bridges f region_for s.direct_rtt_ms s.router dst at v in
      (
        elim answer [
          | inl passes ↦ inl passes
          | inr (i, b, there, redirected) ↦
              inr (i, b, listen_addr f lit b, get_elem?-map bs i b (rw same at there), redirected)
        ],
        resolve_all-Served packets
            (record s { router = (resolve f region_for s.direct_rtt_ms s.router dst at).1 }) bs
            after (kept ∙ same),
      )

  -- Where the interface's mode comes up, every packet passes or is redirected to the address of a
  -- listener that was spawned, whatever the packets before it were.
  pub run_with_tui-Served :
      (config : Config f lit) (cfg : SmartRoutingConfig f lit) (spawn : Option String)
      (s : Smart f lit) (packets : List (SocketAddr × ℕ))
      → config.smart_routing ≡ some cfg
      → run_with_tui f lit config spawn ≡ ok s
      → All (Served s.listeners) (resolve_all s.capture.resolver packets)
  run_with_tui-Served config cfg spawn s packets given e =
      let (resolver, _, listeners) = run_with_tui-eq-ok config cfg spawn s given e in
      let (valid, bridges) =
        seed-IsRouter (estimate f lit) cfg.bridges (new_router f (lit 2) cfg.bridges)
          (new_router-IsRouter f (lit 2) cfg.bridges) in
      rw (resolver, listeners)
        (resolve_all-Served packets _ cfg.bridges valid (bridges ∙ (unfold new_router in refl)))
