-- ===== src/Aws/Lookup.antt =====
-- `region_for`: that it does not panic, that it finds the longest prefix, and what it misses.
use lowping.Base.{
  ℕ, zero, suc, ◌+◌, ◌-◌, ◌≤◌, ◌<◌, take, min, ◌≡◌, refl, sym, ap, ◌∙◌, subst, List, [], ◌∷◌, map,
  length, get_elem?, get_or, All, All-take, All-drop, Option, none, some, ok, err, arith,
}
use lowping.Base.Bytes.{Bytes, from_be}
use lowping.Net.{v4}
use lowping.Aws.{
  AwsLookup, CompiledPrefix, index_out_of_bounds, region_for, region_name, walk, landing,
}
use lowping.Aws.Search.{
  BinarySearch, IsSorted, landing-lt, landing-near, le-landing, le-landing_unique,
}
use lowping.Aws.Walk.{
  Contains, scan, Longest, scan-Longest, walk-scan, scan-window, scan-window_none, window,
  get_elem?-lt, get_of_All,
}

abbrev pub networks : AwsLookup → List ℕ
networks t = map (λ p. p.network) t.prefixes

-- A table that the walk can use.
pub record IsLookup (t : AwsLookup) : Type 0 where
  pub sorted : IsSorted (networks t)
  pub masks : All (λ p. p.mask_len ≤ 32) t.prefixes
  pub regions : All (λ p. p.region_idx < length t.regions) t.prefixes

length-networks : (ps : List CompiledPrefix) → length (map (λ p. p.network) ps) ≡ length ps
length-networks [] = refl
length-networks (p ∷ ps) = ap suc (length-networks ps)

network_at :
    (ps : List CompiledPrefix) (j : ℕ) (p : CompiledPrefix)
    → get_elem? ps j ≡ some p
    → (j < length ps) × (get_or (map (λ q. q.network) ps) j 0 ≡ p.network)
network_at [] j p e = absurd cc
network_at (q ∷ ps) zero p e = (omega arith, ground arith)
network_at (q ∷ ps) (suc j) p e = let (below, same) = network_at ps j p e in (omega arith, same)

module _ (s : BinarySearch) (t : AwsLookup) (octets : Bytes) (sorted : IsSorted (networks t)) where
  start : ℕ
  start = landing (s.search (networks t) (from_be octets))

  -- The window that the walk goes through.
  region_for-window :
      0 < length t.prefixes
      → region_for s.search t (v4 octets)
        ≡ region_name t.regions
            (scan (from_be octets) (window (min 32 (start + 1)) (suc start) t.prefixes) none)
  unfolding region_for start
  region_for-window some_prefix =
      let same = length-networks t.prefixes in
      let inside = landing-lt s (networks t) (from_be octets) sorted (omega arith) in
      rw
        (walk-scan (min 32 (start + 1)) start t.prefixes (from_be octets) none (omega arith)
          (omega arith))
        refl

-- At most one prefix of the table starts at the address.
abbrev pub StartsOnce : AwsLookup → ℕ → Type 0
StartsOnce t v =
    (i j : ℕ)
    → i < length (networks t)
    → j < length (networks t)
    → get_or (networks t) i 0 ≡ v
    → get_or (networks t) j 0 ≡ v
    → i ≡ j

-- Fewer than 32 prefixes start between a prefix that contains the address and the address.
abbrev pub StartsNear : AwsLookup → ℕ → Type 0
StartsNear t v =
    (j : ℕ) (p : CompiledPrefix)
    → get_elem? t.prefixes j ≡ some p
    → Contains v p
    → (i : ℕ) → i < length (networks t)
    → get_or (networks t) i 0 ≤ v
    → i < j + 32

-- At least 32 prefixes start there.
abbrev pub StartsFar : AwsLookup → ℕ → Type 0
StartsFar t v =
    (j : ℕ) (p : CompiledPrefix)
    → get_elem? t.prefixes j ≡ some p
    → Contains v p
    → (j + 32 < length (networks t)) × (get_or (networks t) (j + 32) 0 < v)

module _ (s : BinarySearch) (t : AwsLookup) (octets : Bytes) where
  -- On a sorted table that is not empty, where at most one prefix starts at the address and fewer than
  -- 32 start between a prefix that contains the address and the address, the lookup by binary search and
  -- walk gives what a scan of the whole table gives.
  pub region_for-scan :
      IsSorted (networks t)
      → 0 < length t.prefixes
      → StartsOnce t (from_be octets)
      → StartsNear t (from_be octets)
      → region_for s.search t (v4 octets)
        ≡ region_name t.regions (scan (from_be octets) t.prefixes none)
  region_for-scan sorted some_prefix once near =
      let v = from_be octets in
      let l = start s t octets sorted in
      let reach : (j : ℕ) (p : CompiledPrefix)
          → get_elem? t.prefixes j ≡ some p
          → Contains v p
          → (j < suc l) × (suc l ≤ j + min 32 (l + 1)) =
        λ j p e c.
          let (below, here) = network_at t.prefixes j p e in
          let same = length-networks t.prefixes in
          let inside : j < length (networks t) = omega arith in
          let first : j ≤ l =
            unfold start in
            le-landing_unique s (networks t) v sorted j inside (omega arith)
              (λ i bound at_i at_j. once i j bound inside at_i at_j) in
          let close : l < j + 32 =
            unfold start in
            landing-near s (networks t) v sorted (j + 32) (omega arith) (near j p e c) in
          (omega arith, omega arith) in
      region_for-window s t octets sorted some_prefix
      ∙ ap (region_name t.regions) (scan-window (min 32 (l + 1)) (suc l) t.prefixes v none reach)

  -- On a sorted table where at least 32 prefixes start strictly between every prefix that contains the
  -- address and the address, no region is found.
  pub region_for_far :
      IsSorted (networks t)
      → 0 < length t.prefixes
      → StartsFar t (from_be octets)
      → region_for s.search t (v4 octets) ≡ ok none
  unfolding region_name
  region_for_far sorted some_prefix far =
      let v = from_be octets in
      let l = start s t octets sorted in
      let out : (j : ℕ) (p : CompiledPrefix)
          → get_elem? t.prefixes j ≡ some p
          → Contains v p
          → ¬ ((j < suc l) × (suc l ≤ j + min 32 (l + 1))) =
        λ j p e c near.
          let (inside, small) = far j p e c in
          let past : j + 32 ≤ l =
            unfold start in le-landing s (networks t) v sorted (j + 32) inside small in
          omega arith in
      region_for-window s t octets sorted some_prefix
      ∙ ap (region_name t.regions) (scan-window_none (min 32 (l + 1)) (suc l) t.prefixes v none out)

-- The region of the prefix with the longest mask among those that contain the address, if any does.
abbrev pub LongestRegion : AwsLookup → ℕ → Option Bytes → Type 0
LongestRegion t v none = All (λ p. ¬ Contains v p) t.prefixes
LongestRegion t v (some name) =
    (i : ℕ) × (p : CompiledPrefix) × (get_elem? t.prefixes i ≡ some p)
    × Contains v p
    × (get_elem? t.regions p.region_idx ≡ some name)
    × All (λ q. Contains v q → q.mask_len ≤ p.mask_len) t.prefixes

module _ (t : AwsLookup) (v : ℕ)
    (regions : All (λ p. p.region_idx < length t.regions) t.prefixes) where
  named :
      (best : Option (ℕ × ℕ))
      → Longest v t.prefixes best
      → (r : Option Bytes) × (region_name t.regions best ≡ ok r) × LongestRegion t v r
  unfolding region_name
  named none h = (none, refl, h)
  named (some (m, idx)) ((i, p, e, c, mask, region), bound) =
      let (name, at) =
        get_elem?-lt p.region_idx t.regions (get_of_All _ t.prefixes i p regions e) in
      (
        some name,
        rw (ap (get_elem? t.regions) (sym region) ∙ at) refl,
        (
          i,
          p,
          e,
          c,
          at,
          subst (λ n. All (λ q. Contains v q → q.mask_len ≤ n) t.prefixes) (sym mask) bound,
        ),
      )

-- Under the conditions of `region_for-scan`, and where the regions of the prefixes are in the table, the
-- lookup returns the region of the prefix with the longest mask among those that contain the address,
-- and none if no prefix contains it.
pub region_for_longest :
    (s : BinarySearch) (t : AwsLookup) (octets : Bytes)
    → IsLookup t
    → 0 < length t.prefixes
    → StartsOnce t (from_be octets)
    → StartsNear t (from_be octets)
    → (r : Option Bytes) × (region_for s.search t (v4 octets) ≡ ok r)
      × LongestRegion t (from_be octets) r
region_for_longest s t octets valid some_prefix once near =
    let v = from_be octets in
    let (r, e, longest) =
      named t v valid.regions (scan v t.prefixes none) (scan-Longest v t.prefixes) in
    (r, region_for-scan s t octets valid.sorted some_prefix once near ∙ e, longest)

walk_empty :
    (ps : List CompiledPrefix) (v i n : ℕ) (best : Option (ℕ × ℕ))
    → length ps ≡ 0
    → 0 < n
    → walk ps v i n best ≡ err index_out_of_bounds
unfolding walk
walk_empty ps v i zero best empty some_step = absurd (omega arith)
walk_empty [] v i (suc n) best empty some_step = refl
walk_empty (p ∷ ps) v i (suc n) best empty some_step = absurd (omega arith)

name_of :
    (t : AwsLookup) (v : ℕ) (ps : List CompiledPrefix)
    → All (λ p. p.region_idx < length t.regions) ps
    → (best : Option (ℕ × ℕ)) → Longest v ps best
    → (r : Option Bytes) × (region_name t.regions best ≡ ok r)
unfolding region_name
name_of t v ps indexed none h = (none, refl)
name_of t v ps indexed (some (m, idx)) ((i, p, e, c, mask, region), bound) =
    let (name, at) = get_elem?-lt p.region_idx t.regions (get_of_All _ ps i p indexed e) in
    (some name, rw (ap (get_elem? t.regions) (sym region) ∙ at) refl)

-- The lookup of an IPv4 address panics exactly where the table is empty, on every well-formed table.
pub region_for_total :
    (s : BinarySearch) (t : AwsLookup) (octets : Bytes)
    → IsLookup t
    → (length t.prefixes ≡ 0 → region_for s.search t (v4 octets) ≡ err index_out_of_bounds)
      × (0 < length t.prefixes → (r : Option Bytes) × (region_for s.search t (v4 octets) ≡ ok r))
unfolding region_for
region_for_total s t octets valid =
    let v = from_be octets in
    let l = start s t octets valid.sorted in
    let n = min 32 (l + 1) in
    let seen = window n (suc l) t.prefixes in
    let indexed =
      All-drop _ (suc l - n) (take (suc l) t.prefixes)
        (All-take _ (suc l) t.prefixes valid.regions) in
    (
      (λ empty. unfold start in rw (walk_empty t.prefixes v l n none empty (omega arith)) refl),
      (λ some_prefix.
          let (r, e) = name_of t v seen indexed (scan v seen none) (scan-Longest v seen) in
          (r, region_for-window s t octets valid.sorted some_prefix ∙ e)),
    )
