-- ===== src/Capture/Switch.antt =====
-- The constructors of a capture, and `start` and `stop`: the flag `running` and whether a capture thread was spawned. `spawn` is what the
-- spawn of the thread answers: `none`, or the message of its error.
use Prim.Native.String.{String}
use lowping.Base.{
  ℕ, ◌≡◌, [], map, Bool, true, false, List, Option, none, some, Result, Result-cases, ok, err, inl,
  inr, arith, if◌then◌else◌,
}
use lowping.Net.{SocketAddr, v4}
use lowping.Capture.{CaptureError, CaptureState, RedirectRule, Stats, other, redirect_target}
use lowping.Capture.Filter.{build_filter}

-- A capture, over its resolver: a list of rules, or a router.
pub record WinDivertCapture {ρ} (R : Type ρ) : Type ρ where
  pub resolver : R
  pub redirect_targets : List SocketAddr
  pub bridge_endpoints : List SocketAddr
  pub state : CaptureState
  pub flow_idle : ℕ

abbrev pub no_stats : Stats
no_stats = record { outbound_redirected = 0; inbound_rewritten = 0; dropped_unparseable = 0 }

unfoldable pub with_resolver {ρ} :
    {R : Type ρ} → R → List SocketAddr → List SocketAddr → WinDivertCapture R
with_resolver resolver redirect_targets bridge_endpoints = record {
  resolver = resolver;
  redirect_targets = redirect_targets;
  bridge_endpoints = bridge_endpoints;
  state = record { flows = []; stats = no_stats };
  flow_idle = 120;
}

unfoldable pub with_rules :
    List RedirectRule → List SocketAddr → WinDivertCapture (List RedirectRule)
with_rules rules bridge_endpoints = record {
  resolver = rules;
  redirect_targets = map redirect_target rules;
  bridge_endpoints = bridge_endpoints;
  state = record { flows = []; stats = no_stats };
  flow_idle = 120;
}

-- `active_flows`: the game's source ports with the original destinations.
unfoldable pub active_flows : CaptureState → List (ℕ × SocketAddr)
active_flows st =
    map (λ f. (f.0, record { ip = v4 f.1.orig_dst_ip; port = f.1.orig_dst_port })) st.flows

pub record Backend : Type 0 where
  pub running : Bool
  pub handle : Bool

unfoldable pub start :
    List SocketAddr
    → List SocketAddr
    → Option String
    → Backend
    → Result CaptureError (Unit {0}) × Backend
start redirect_targets bridge_endpoints spawn b =
    if b.running
    then (ok tt, b)
    else let b' = record b { running = true } in
      elim (build_filter redirect_targets bridge_endpoints) [
        | err x ↦ (err x, b')
        | ok filter ↦ elim spawn [
          | none ↦ (ok tt, record b' { handle = true })
          | some message ↦ (err (other message), b')
        ]
      ]

unfoldable pub stop : Backend → Result CaptureError (Unit {0}) × Backend
stop b = (ok tt, record b { running = false })

-- A first `start` that fails has set the flag all the same: the next one reports success, and no
-- capture runs.
pub start-start_failed :
    (b b' : Backend) (targets targets' endpoints endpoints' : List SocketAddr)
    (spawn spawn' : Option String) (x : CaptureError)
    → b.running ≡ false
    → start targets endpoints spawn b ≡ (err x, b')
    → (start targets' endpoints' spawn' b' ≡ (ok tt, b')) × (b'.handle ≡ b.handle)
unfolding start
start-start_failed b b' targets targets' endpoints endpoints' none spawn' x idle e =
    elim (Result-cases (build_filter targets endpoints)) [
      | inl (text, built) ↦ absurd (ground arith)
      | inr (y, refused) ↦ ground arith
    ]
start-start_failed b b' targets targets' endpoints endpoints' (some m) spawn' x idle e =
    elim (Result-cases (build_filter targets endpoints)) [
      | inl (text, built) ↦ ground arith
      | inr (y, refused) ↦ ground arith
    ]
