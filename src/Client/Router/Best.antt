-- ===== src/Client/Router/Best.antt =====
-- The bridge that the router prefers: the loop of `pick` finds a least total.
use lowping.Base.{
  ℕ, zero, suc, ◌+◌, ◌≡◌, ◌⊎◌, inl, inr, refl, true, false, List, [], ◌∷◌, get_elem?, Option, none,
  some, Bool-cases, Option-cases, subst, arith, All, length, ◌<◌,
}
use lowping.Base.Bytes.{Bytes}
use lowping.Base.Dict.{Dict, get}
use lowping.Client.Router.Millis.{Float}
use lowping.Client.Router.{BridgeEntry, via_bridge, candidate, better, best_bridge, choose}

module _ (f : Float) where
  open f use {F, add, lt, infinity, is_nan, lt_irrefl, lt_asymm, lt_linear}

  -- No NaN among the totals: the measurements are numbers.
  abbrev pub IsNumber : Option F → Type 0
  IsNumber none = Unit {0}
  IsNumber (some t) = is_nan t ≡ false

  abbrev IsBest : Option (ℕ × F) → Type 0
  IsBest none = Unit {0}
  IsBest (some (i, t)) = is_nan t ≡ false

  better-IsBest :
      (c : Option F) (idx : ℕ) (best : Option (ℕ × F))
      → IsNumber c
      → IsBest best
      → IsBest (better f c idx best)
  better-IsBest none idx best n m = m
  better-IsBest (some t) idx none n m = n
  better-IsBest (some t) idx (some (i, s)) n m = elim (Bool-cases (lt t s)) [
    | inl less ↦ rw less n
    | inr more ↦ rw more m
  ]

  -- What the accumulator holds stays a bound.
  best_bridge-bound :
      (pings : Dict Bytes F) (region : Option Bytes) (idx i : ℕ) (s : F) (bs : List (BridgeEntry f))
      → All (λ b. IsNumber (candidate f pings region b)) bs
      → is_nan s ≡ false
      → (j : ℕ) × (t : F) × (best_bridge f pings region idx (some (i, s)) bs ≡ some (j, t))
        × (lt s t ≡ false)
  unfolding best_bridge
  best_bridge-bound pings region idx i s [] numbers n = (i, s, refl, lt_irrefl s)
  best_bridge-bound pings region idx i s (b ∷ bs) (number, numbers) n =
      elim (Option-cases (candidate f pings region b)) [
        | inl skip ↦ rw skip (best_bridge-bound pings region (idx + 1) i s bs numbers n)
        | inr (total, found) ↦ elim (Bool-cases (lt total s)) [
          | inr more ↦ rw (found, more) (best_bridge-bound pings region (idx + 1) i s bs numbers n)
          | inl less ↦
              let m : is_nan total ≡ false = rw found at number in
              let (j, t, ends, bound) =
                best_bridge-bound pings region (idx + 1) idx total bs numbers m in
              (j, t, rw (found, less) ends, lt_linear s total t m (lt_asymm total s less) bound)
        ]
      ]

  -- No bridge behind the accumulator is better than what the loop ends with.
  best_bridge-least :
      (pings : Dict Bytes F) (region : Option Bytes) (idx k : ℕ) (acc : Option (ℕ × F))
      (bs : List (BridgeEntry f)) (b : BridgeEntry f) (c : F)
      → All (λ b. IsNumber (candidate f pings region b)) bs
      → IsBest acc
      → get_elem? bs k ≡ some b
      → candidate f pings region b ≡ some c
      → (j : ℕ) × (t : F) × (best_bridge f pings region idx acc bs ≡ some (j, t)) × (lt c t ≡ false)
  unfolding best_bridge
  best_bridge-least pings region idx k acc [] b c numbers n at_k found = absurd cc
  best_bridge-least pings region idx zero none (a ∷ bs) b c (number, numbers) n at_k found =
      let same : a ≡ b = ground arith in
      let here : candidate f pings region a ≡ some c = rw same found in
      rw here (best_bridge-bound pings region (idx + 1) idx c bs numbers (rw here at number))
  best_bridge-least pings region idx zero (some (i, s)) (a ∷ bs) b c (number, numbers) n at_k
        found =
      let same : a ≡ b = ground arith in
      let here : candidate f pings region a ≡ some c = rw same found in
      elim (Bool-cases (lt c s)) [
        | inl less ↦
            rw (here, less)
              (best_bridge-bound pings region (idx + 1) idx c bs numbers (rw here at number))
        | inr more ↦
            let (j, t, ends, bound) = best_bridge-bound pings region (idx + 1) i s bs numbers n in
            (j, t, rw (here, more) ends, lt_linear c s t n more bound)
      ]
  best_bridge-least pings region idx (suc k) acc (a ∷ bs) b c (number, numbers) n at_k found =
      best_bridge-least pings region (idx + 1) k _ bs b c numbers
        (better-IsBest (candidate f pings region a) idx acc number n) at_k found

  -- Where the accumulator that a bridge leaves comes from.
  better-source :
      (c : Option F) (idx i : ℕ) (acc : Option (ℕ × F)) (t : F)
      → better f c idx acc ≡ some (i, t)
      → (acc ≡ some (i, t)) ⊎ ((i ≡ idx) × (c ≡ some t))
  better-source none idx i acc t e = inl e
  better-source (some u) idx i none t e = inr (ground arith, ground arith)
  better-source (some u) idx i (some (j, s)) t e = ground arith

  -- What the loop ends with is the accumulator or one bridge's total, by its index.
  best_bridge-source :
      (pings : Dict Bytes F) (region : Option Bytes) (idx i : ℕ) (acc : Option (ℕ × F)) (t : F)
      (bs : List (BridgeEntry f))
      → best_bridge f pings region idx acc bs ≡ some (i, t)
      → (acc ≡ some (i, t))
        ⊎ ((k : ℕ) × (b : BridgeEntry f) × (i ≡ idx + k)
            × (get_elem? bs k ≡ some b)
            × (candidate f pings region b ≡ some t))
  unfolding best_bridge
  best_bridge-source pings region idx i acc t [] e = inl e
  best_bridge-source pings region idx i acc t (b ∷ bs) e =
      elim (best_bridge-source pings region (idx + 1) i
        (better f (candidate f pings region b) idx acc) t bs e) [
          | inr (k, a, there, at_k, found) ↦ inr (suc k, a, omega arith, at_k, found)
          | inl kept ↦ elim (better-source (candidate f pings region b) idx i acc t kept) [
            | inl old ↦ inl old
            | inr (here, found) ↦ inr (zero, b, omega arith, refl, found)
          ]
        ]

  -- A bridge is chosen only if its total, with the margin, is below the direct time; and no bridge has a
  -- smaller total, if none of the totals is NaN.
  pub choose-best_bridge :
      (pings : Dict Bytes F) (region : Option Bytes) (bs : List (BridgeEntry f)) (margin rtt c : F)
      (i k : ℕ) (a : BridgeEntry f)
      → All (λ b. IsNumber (candidate f pings region b)) bs
      → (choose f margin (best_bridge f pings region 0 none bs) rtt).0 ≡ via_bridge i
      → get_elem? bs k ≡ some a
      → candidate f pings region a ≡ some c
      → (b : BridgeEntry f) × (t : F) × (get_elem? bs i ≡ some b)
        × (candidate f pings region b ≡ some t)
        × (lt (add t margin) rtt ≡ true)
        × (lt c t ≡ false)
  unfolding choose
  choose-best_bridge pings region bs margin rtt c i k a numbers e at_k worth =
      let (j, t, ends, bound) =
        best_bridge-least pings region 0 k none bs a c numbers tt at_k worth in
      elim (best_bridge-source pings region 0 j none t bs ends) [
        | inl impossible ↦ absurd cc
        | inr (m, b, there, at_m, found) ↦
            let same : m ≡ i = ground arith in (b, t, rw same at at_m, found, ground arith, bound)
      ]

  get_elem?-lt :
      {A : Type 0} (xs : List A) (i : ℕ) (x : A) → get_elem? xs i ≡ some x → i < length xs
  get_elem?-lt [] i x e = absurd cc
  get_elem?-lt (y ∷ ys) zero x e = omega arith
  get_elem?-lt (y ∷ ys) (suc i) x e = omega (arith, get_elem?-lt ys i x e)

  -- A chosen index is one of the list.
  pub choose-lt :
      (pings : Dict Bytes F) (region : Option Bytes) (bs : List (BridgeEntry f)) (margin rtt : F)
      (i : ℕ)
      → (choose f margin (best_bridge f pings region 0 none bs) rtt).0 ≡ via_bridge i
      → i < length bs
  unfolding choose
  choose-lt pings region bs margin rtt i e =
      elim (Option-cases (best_bridge f pings region 0 none bs)) [
        | inl nothing ↦ absurd (ground arith)
        | inr ((j, t), ends) ↦ elim (best_bridge-source pings region 0 j none t bs ends) [
          | inl impossible ↦ absurd cc
          | inr (k, b, there, at_k, found) ↦
              let same : k ≡ i = ground arith in
              subst (λ n. n < length bs) same (get_elem?-lt bs k b at_k)
        ]
      ]

  -- Without a measurement of the way to any bridge there is no candidate, and the route is direct.
  pub best_bridge_unmeasured :
      (region : Option Bytes) (idx : ℕ) (bs : List (BridgeEntry f))
      → best_bridge f [] region idx none bs ≡ none
  unfolding best_bridge candidate get
  best_bridge_unmeasured region idx [] = refl
  best_bridge_unmeasured region idx (b ∷ bs) = best_bridge_unmeasured region (idx + 1) bs
