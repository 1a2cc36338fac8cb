-- ===== src/Aws/Walk.antt =====
-- The walk back of `region_for` against a scan of a whole list of prefixes.
use lowping.Base.{
  ℕ, zero, suc, ◌+◌, ◌-◌, ◌≤◌, ◌<◌, ◌≡◌, refl, sym, ap, ◌∙◌, subst, List, [], ◌∷◌, ◌++◌, length,
  take, drop, get_elem?, All, Option, none, some, ok, inl, inr, arith, length-take,
  take-append-drop, true, false, Bool-cases, ltb, leb,
}
use lowping.Aws.{CompiledPrefix, consider, walk, last_address}

-- The addresses of a prefix.
abbrev pub Contains : ℕ → CompiledPrefix → Type 0
Contains v p = (p.network ≤ v) × (v ≤ last_address p)

-- The reference: every prefix of the list is looked at, from the last to the first.
unfoldable pub scan : ℕ → List CompiledPrefix → Option (ℕ × ℕ) → Option (ℕ × ℕ)
scan v [] best = best
scan v (p ∷ ps) best = consider v p (scan v ps best)

pub scan-append :
    (v : ℕ) (xs ys : List CompiledPrefix) (best : Option (ℕ × ℕ))
    → scan v (xs ++ ys) best ≡ scan v xs (scan v ys best)
unfolding scan
scan-append v [] ys best = refl
scan-append v (x ∷ xs) ys best = ap (consider v x) (scan-append v xs ys best)

consider_miss :
    (v : ℕ) (p : CompiledPrefix) (best : Option (ℕ × ℕ)) → ¬ Contains v p → consider v p best ≡ best
unfolding consider
consider_miss v p best out = ground arith

-- Prefixes that do not contain the address change nothing.
pub scan_miss :
    (v : ℕ) (ps : List CompiledPrefix) (best : Option (ℕ × ℕ))
    → All (λ p. ¬ Contains v p) ps
    → scan v ps best ≡ best
unfolding scan
scan_miss v [] best out = refl
scan_miss v (p ∷ ps) best out =
    ap (consider v p) (scan_miss v ps best out.1) ∙ consider_miss v p best out.0

module _ {ℓ} {A : Type ℓ} where
  take-suc :
      (i : ℕ) (xs : List A) (x : A)
      → get_elem? xs i ≡ some x
      → take (suc i) xs ≡ take i xs ++ x ∷ []
  take-suc i [] x h = absurd cc
  take-suc zero (y ∷ xs) x h = let same : y ≡ x = ground arith in rw same refl
  take-suc (suc i) (y ∷ xs) x h = ap (λ r. y ∷ r) (take-suc i xs x h)

  drop-append_le : (k : ℕ) (xs ys : List A) → k ≤ length xs → drop k (xs ++ ys) ≡ drop k xs ++ ys
  drop-append_le zero xs ys h = refl
  drop-append_le (suc k) [] ys h = absurd (omega arith)
  drop-append_le (suc k) (x ∷ xs) ys h = drop-append_le k xs ys (omega arith)

  pub get_elem?-lt : (i : ℕ) (xs : List A) → i < length xs → (x : A) × (get_elem? xs i ≡ some x)
  get_elem?-lt i [] h = absurd (omega arith)
  get_elem?-lt zero (x ∷ xs) h = (x, refl)
  get_elem?-lt (suc i) (x ∷ xs) h = get_elem?-lt i xs (omega arith)

  length-take_lt : (i : ℕ) (xs : List A) → i < length xs → length (take i xs) ≡ i
  length-take_lt i [] h = absurd (omega arith)
  length-take_lt zero (x ∷ xs) h = refl
  length-take_lt (suc i) (x ∷ xs) h = ap suc (length-take_lt i xs (omega arith))

  drop_all : (k : ℕ) (xs : List A) → length xs ≤ k → drop k xs ≡ []
  drop_all zero [] h = refl
  drop_all zero (x ∷ xs) h = absurd (omega arith)
  drop_all (suc k) [] h = refl
  drop_all (suc k) (x ∷ xs) h = drop_all k xs (omega arith)

  length-take-le : (k : ℕ) (xs : List A) → length (take k xs) ≤ k
  length-take-le k xs = omega (arith, length-take k xs)

  get_elem?-take :
      (k i : ℕ) (xs : List A) (x : A)
      → get_elem? (take k xs) i ≡ some x
      → (i < k) × (get_elem? xs i ≡ some x)
  get_elem?-take zero i xs x h = absurd cc
  get_elem?-take (suc k) i [] x h = absurd cc
  get_elem?-take (suc k) zero (y ∷ xs) x h = (omega arith, h)
  get_elem?-take (suc k) (suc i) (y ∷ xs) x h =
      let (below, same) = get_elem?-take k i xs x h in (omega arith, same)

  get_elem?-drop : (k i : ℕ) (xs : List A) → get_elem? (drop k xs) i ≡ get_elem? xs (k + i)
  get_elem?-drop zero i xs = ap (get_elem? xs) (omega arith)
  get_elem?-drop (suc k) i [] = refl
  get_elem?-drop (suc k) i (x ∷ xs) =
      let shift : suc (k + i) ≡ suc k + i = omega arith in
      get_elem?-drop k i xs ∙ ap (get_elem? (x ∷ xs)) shift

  -- What holds at every index holds of every element.
  pub All-of_get {π} :
      (P : A → Type π) (xs : List A) → ((i : ℕ) (x : A) → get_elem? xs i ≡ some x → P x) → All P xs
  All-of_get P [] h = tt
  All-of_get P (x ∷ xs) h = (h 0 x refl, All-of_get P xs (λ i. h (suc i)))

  pub get_of_All {π} :
      (P : A → Type π) (xs : List A) (i : ℕ) (x : A) → All P xs → get_elem? xs i ≡ some x → P x
  get_of_All P [] i x h e = absurd cc
  get_of_All P (y ∷ xs) zero x h e = subst P (ground arith) h.0
  get_of_All P (y ∷ xs) (suc i) x h e = get_of_All P xs i x h.1 e

  -- The window of `n` elements behind `i`.
  abbrev pub window : ℕ → ℕ → List A → List A
  window n i xs = drop (i - n) (take i xs)

  window-suc :
      (n i : ℕ) (xs : List A) (x : A)
      → n ≤ i
      → get_elem? xs i ≡ some x
      → i < length xs
      → window (suc n) (suc i) xs ≡ window n i xs ++ x ∷ []
  window-suc n i xs x h e inside =
      let shift : suc i - suc n ≡ i - n = omega arith in
      rw (take-suc i xs x e, shift)
        (drop-append_le (i - n) (take i xs) (x ∷ []) (omega (arith, length-take_lt i xs inside)))

-- One step of a walk that stays inside the table.
walk-suc :
    (ps : List CompiledPrefix) (v i n : ℕ) (best : Option (ℕ × ℕ)) (p : CompiledPrefix)
    → get_elem? ps i ≡ some p
    → walk ps v i (suc n) best ≡ walk ps v (i - 1) n (consider v p best)
unfolding walk
walk-suc ps v i n best p e = rw e refl

-- A walk that stays inside the table scans the window behind its start.
pub walk-scan :
    (n i : ℕ) (ps : List CompiledPrefix) (v : ℕ) (best : Option (ℕ × ℕ))
    → i < length ps
    → n ≤ suc i
    → walk ps v i n best ≡ ok (scan v (window n (suc i) ps) best)
unfolding walk scan
walk-scan zero i ps v best inside enough =
    let nothing : window 0 (suc i) ps ≡ [] =
      drop_all (suc i - 0) _ (omega (arith, length-take-le (suc i) ps)) in
    ap (λ w. ok (scan v w best)) (sym nothing)
walk-scan (suc n) zero [] v best inside enough = absurd (omega arith)
walk-scan (suc zero) zero (p ∷ ps) v best inside enough = refl
walk-scan (suc (suc n)) zero (p ∷ ps) v best inside enough = absurd (omega arith)
walk-scan (suc n) (suc i) ps v best inside enough =
    let (p, e) = get_elem?-lt (suc i) ps inside in
    let split =
      ap (λ w. scan v w best) (window-suc n (suc i) ps p (omega arith) e inside)
      ∙ scan-append v (window n (suc i) ps) (p ∷ []) best in
    let back : suc i - 1 ≡ i = omega arith in
    walk-suc ps v (suc i) n best p e
    ∙ rw (back, walk-scan n i ps v (consider v p best) (omega arith) (omega arith))
        (ap ok (sym split))

-- Where only the window can contain the address, the window decides.
pub scan-window :
    (n i : ℕ) (ps : List CompiledPrefix) (v : ℕ) (best : Option (ℕ × ℕ))
    → ((j : ℕ) (p : CompiledPrefix)
        → get_elem? ps j ≡ some p
        → Contains v p
        → (j < i) × (i ≤ j + n))
    → scan v (window n i ps) best ≡ scan v ps best
scan-window n i ps v best reach =
    let front = take (i - n) (take i ps) in
    let front_miss : All (λ p. ¬ Contains v p) front = All-of_get _ front (λ j p e c.
      let (low, here) = get_elem?-take (i - n) j (take i ps) p e in
      let (below, at) = get_elem?-take i j ps p here in
      let (_, near) = reach j p at c in omega arith) in
    let back_miss : All (λ p. ¬ Contains v p) (drop i ps) = All-of_get _ (drop i ps) (λ j p e c.
      let (low, _) = reach (i + j) p (sym (get_elem?-drop i j ps) ∙ e) c in omega arith) in
    sym (
      ap (λ w. scan v w best) (sym (take-append-drop i ps))
      ∙ scan-append v (take i ps) (drop i ps) best
      ∙ ap (scan v (take i ps)) (scan_miss v (drop i ps) best back_miss)
      ∙ ap (λ w. scan v w best) (sym (take-append-drop (i - n) (take i ps)))
      ∙ scan-append v front (window n i ps) best
      ∙ scan_miss v front (scan v (window n i ps) best) front_miss)

-- Where the window cannot contain the address, nothing is found.
pub scan-window_none :
    (n i : ℕ) (ps : List CompiledPrefix) (v : ℕ) (best : Option (ℕ × ℕ))
    → ((j : ℕ) (p : CompiledPrefix)
        → get_elem? ps j ≡ some p
        → Contains v p
        → ¬ ((j < i) × (i ≤ j + n)))
    → scan v (window n i ps) best ≡ best
scan-window_none n i ps v best reach = scan_miss v (window n i ps) best (
    All-of_get _ (window n i ps) (λ j p e c.
      let (below, at) =
        get_elem?-take i (i - n + j) ps p (sym (get_elem?-drop (i - n) j (take i ps)) ∙ e) in
      reach (i - n + j) p at c (below, omega arith)))

-- A prefix of the list contains the address, with this mask and this region.
abbrev pub Holds : ℕ → ℕ → ℕ → List CompiledPrefix → Type 0
Holds v m r ps =
    (i : ℕ) × (p : CompiledPrefix) × (get_elem? ps i ≡ some p)
    × Contains v p
    × (p.mask_len ≡ m)
    × (p.region_idx ≡ r)

-- What the reference finds: a prefix with the longest mask among those that contain the address.
abbrev pub Longest : ℕ → List CompiledPrefix → Option (ℕ × ℕ) → Type 0
Longest v ps none = All (λ p. ¬ Contains v p) ps
Longest v ps (some (m, r)) = Holds v m r ps × All (λ p. Contains v p → p.mask_len ≤ m) ps

module _ (v : ℕ) (p : CompiledPrefix) (ps : List CompiledPrefix) where
  further : (m r : ℕ) → Holds v m r ps → Holds v m r (p ∷ ps)
  further m r (i, q, at, c, mask, region) = (suc i, q, at, c, mask, region)

  -- The best so far stays the best, where `p` does not beat it.
  keep : (best : Option (ℕ × ℕ)) → Longest v ps best → ¬ Contains v p → Longest v (p ∷ ps) best
  keep none h out = (out, h)
  keep (some (m, r)) (here, bound) out = (further m r here, ((λ c. absurd (out c)), bound))

  enter :
      (m r : ℕ)
      → All (λ q. Contains v q → q.mask_len ≤ m) ps
      → Contains v p
      → p.mask_len ≡ m
      → p.region_idx ≡ r
      → Longest v (p ∷ ps) (some (m, r))
  enter m r bound c same_mask same_region =
      ((0, p, refl, c, same_mask, same_region), ((λ _. omega arith), bound))

  weaken :
      (m n : ℕ) (qs : List CompiledPrefix)
      → m ≤ n
      → All (λ q. Contains v q → q.mask_len ≤ m) qs
      → All (λ q. Contains v q → q.mask_len ≤ n) qs
  weaken m n [] le h = tt
  weaken m n (q ∷ qs) le h = ((λ c. let small = h.0 c in omega arith), weaken m n qs le h.1)

  vacuous :
      (n : ℕ) (qs : List CompiledPrefix)
      → All (λ q. ¬ Contains v q) qs
      → All (λ q. Contains v q → q.mask_len ≤ n) qs
  vacuous n [] h = tt
  vacuous n (q ∷ qs) h = ((λ c. absurd (h.0 c)), vacuous n qs h.1)

  inside-Longest :
      (best : Option (ℕ × ℕ))
      → Longest v ps best
      → Contains v p
      → ltb v p.network ≡ false
      → leb v (last_address p) ≡ true
      → Longest v (p ∷ ps) (consider v p best)
  unfolding consider
  inside-Longest none h c start inside =
      rw (start, inside) (enter p.mask_len p.region_idx (vacuous _ ps h) c refl refl)
  inside-Longest (some (m, r)) (here, bound) c start inside = elim (Bool-cases (ltb m p.mask_len)) [
    | inl longer ↦
        rw (start, inside, longer)
          (enter p.mask_len p.region_idx (weaken m _ ps (ground arith) bound) c refl refl)
    | inr shorter ↦ rw (start, inside, shorter) (further m r here, ((λ _. ground arith), bound))
  ]

  consider-Longest :
      (best : Option (ℕ × ℕ)) → Longest v ps best → Longest v (p ∷ ps) (consider v p best)
  unfolding consider
  consider-Longest best h = elim (Bool-cases (ltb v p.network)) [
    | inl below ↦ rw below (keep best h (λ c. ground arith))
    | inr start ↦ elim (Bool-cases (leb v (last_address p))) [
      | inr past ↦ rw (start, past) (keep best h (λ c. ground arith))
      | inl inside ↦
          let c : Contains v p = (ground arith, ground arith) in
          inside-Longest best h c start inside
    ]
  ]

pub scan-Longest : (v : ℕ) (ps : List CompiledPrefix) → Longest v ps (scan v ps none)
unfolding scan
scan-Longest v [] = tt
scan-Longest v (p ∷ ps) = consider-Longest v p ps (scan v ps none) (scan-Longest v ps)
