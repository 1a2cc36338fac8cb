-- ===== src/Client/Tui/Rows.antt =====
-- What the tables of the dashboard show.
use lowping.Base.{
  ℕ, zero, suc, ◌+◌, ◌-◌, ◌*◌, ◌/◌, ◌≤◌, ◌<◌, ◌≡◌, ◌⊎◌, refl, ap, List, [], ◌∷◌, ◌++◌, map, length,
  take, drop, length-take, Option, none, Bool-cases, inl, inr, arith, ltb, leb, if◌then◌else◌,
}
use Prim.Native.String.{String}
use mathlib.Core.List.{reverse, reverse-append}
use lowping.Base.Bytes.{Bytes}
use lowping.Base.Eq.{list_eq, nat_eq}
use lowping.Net.{SocketAddr}
use lowping.Net.Show.{codes, show_nat}
use lowping.Client.Router.{
  Router, DecisionLog, choose, best_bridge, bridge_name, decide, push_recent, recent_decisions,
}
use lowping.Client.Router.Millis.{Float}
use lowping.Client.Tui.{Format, Cell, when_text, decision_row, draw_decisions}

-- A count of a unit, with the unit's letter.
abbrev pub Shows : Bytes → ℕ → ℕ → String → Type 0
Shows text age unit letter =
    (n : ℕ) × (text ≡ show_nat n ++ codes letter) × (n * unit ≤ age) × (age < (n + 1) * unit)

-- The age of a decision is shown in seconds below a minute, in minutes below an hour, and in hours from
-- there on, each time as the number of whole units.
pub when_text-Shows :
    (age : ℕ)
    → ((age < 60) × Shows (when_text age) age 1 "s")
      ⊎ ((60 ≤ age) × (age < 3600) × Shows (when_text age) age 60 "m")
      ⊎ ((3600 ≤ age) × Shows (when_text age) age 3600 "h")
unfolding when_text
when_text-Shows age = elim (Bool-cases (ltb age 60)) [
  | inl young ↦ inl (ground arith, rw young (age, refl, omega arith, omega arith))
  | inr older ↦ elim (Bool-cases (ltb age 3600)) [
    | inl hour ↦ inr (
        inl
          (ground arith, ground arith, rw (older, hour) (age / 60, refl, omega arith, omega arith)))
    | inr old ↦
        inr (inr (ground arith, rw (older, old) (age / 3600, refl, omega arith, omega arith)))
  ]
]

length-map {ℓ κ} :
    {A : Type ℓ} {B : Type κ} (f : A → B) (xs : List A) → length (map f xs) ≡ length xs
length-map f [] = refl
length-map f (x ∷ xs) = ap suc (length-map f xs)

module _ (f : Float) (fmt : Format f) where
  open f use {F}

  -- The log that `decide` appends.
  last_log : Router f → Option Bytes → SocketAddr → F → ℕ → DecisionLog f
  last_log r region dest rtt at =
      let choice =
        choose f r.margin_ms (best_bridge f r.client_to_bridge_ms region 0 none r.bridges) rtt in
      record {
        at = at;
        dest = dest;
        region = region;
        direct_rtt_ms = rtt;
        via_bridge_rtt_ms = choice.1;
        route = choice.0;
        bridge_name = bridge_name f r.bridges choice.0;
      }

  newest :
      (recent : List (DecisionLog f)) (log : DecisionLog f) (n : ℕ)
      → 0 < n
      → take n (reverse (recent ++ log ∷ [])) ≡ log ∷ take (n - 1) (reverse recent)
  newest recent log zero h = absurd (omega arith)
  newest recent log (suc n) h =
      let back : suc n - 1 ≡ n = omega arith in rw (reverse-append recent (log ∷ []), back) refl

  -- After a decision that was not taken from the cache, the first row of the table shows it, in every
  -- area that has room for a row; and the rows fit in the area.
  pub draw_decisions-decide :
      (r : Router f) (region : Option Bytes) (dest : SocketAddr) (rtt : F) (at now height : ℕ)
      → 4 ≤ height
      → let (route, r') = decide f r region dest rtt at in
        let table = draw_decisions f fmt height now r' in
        (length table.rows + 3 ≤ height)
        × ((log : DecisionLog f) × (rest : List (List Cell)) × (table.rows
              ≡ decision_row f fmt now log ∷ rest)
            × (log.dest ≡ dest)
            × (log.region ≡ region)
            × (log.direct_rtt_ms ≡ rtt)
            × (log.at ≡ at)
            × (log.route ≡ route))
  unfolding draw_decisions recent_decisions decide push_recent
  draw_decisions-decide r region dest rtt at now height room =
      let log = last_log r region dest rtt at in
      let older = if leb r.recent_capacity (length r.recent) then drop 1 r.recent else r.recent in
      let first = newest older log (height - 3) (omega arith) in
      let shown = reverse (older ++ log ∷ []) in
      let size = length-map (decision_row f fmt now) (take (height - 3) shown) in
      (
        unfold last_log in omega (arith, size, length-take (height - 3) shown),
        (
          log,
          map (decision_row f fmt now) (take (height - 3 - 1) (reverse older)),
          unfold last_log in ap (map (decision_row f fmt now)) first,
          unfold last_log in refl,
          unfold last_log in refl,
          unfold last_log in refl,
          unfold last_log in refl,
          unfold last_log in refl,
        ),
      )
