-- ===== src/Aws/Search.antt =====
-- `binary_search_by_key` of the standard library, as it is documented for a sorted slice, and where it
-- makes the walk of `region_for` start.
use lowping.Base.{
  ℕ, ◌-◌, ◌≤◌, ◌<◌, ◌≡◌, List, length, get_or, Result, ok, err, Result-cases, inl, inr, arith,
}
use lowping.Aws.{landing}

abbrev pub IsSorted : List ℕ → Type 0
IsSorted ks = (i j : ℕ) → i ≤ j → j < length ks → get_or ks i 0 ≤ get_or ks j 0

-- `Ok` is the index of a match, any of them; `Err` is where the key could be inserted.
pub record BinarySearch : Type 0 where
  pub search : List ℕ → ℕ → Result ℕ ℕ
  pub found :
      (ks : List ℕ) (k i : ℕ)
      → IsSorted ks
      → search ks k ≡ ok i
      → (i < length ks) × (get_or ks i 0 ≡ k)
  pub missing :
      (ks : List ℕ) (k i : ℕ)
      → IsSorted ks
      → search ks k ≡ err i
      → (i ≤ length ks)
        × ((j : ℕ) → j < i → get_or ks j 0 < k)
        × ((j : ℕ) → i ≤ j → j < length ks → k < get_or ks j 0)

module _ (s : BinarySearch) (ks : List ℕ) (k : ℕ) (sorted : IsSorted ks) where
  -- The walk starts inside the table, unless the table is empty.
  pub landing-lt : 0 < length ks → landing (s.search ks k) < length ks
  unfolding landing
  landing-lt some_key = elim (Result-cases (s.search ks k)) [
    | inl (i, e) ↦ rw e (s.found ks k i sorted e).0
    | inr (i, e) ↦ let (bound, _, _) = s.missing ks k i sorted e in rw e (omega arith)
  ]

  -- A smaller key does not stand after the start.
  pub le-landing : (j : ℕ) → j < length ks → get_or ks j 0 < k → j ≤ landing (s.search ks k)
  unfolding landing
  le-landing j bound small = elim (Result-cases (s.search ks k)) [
    | inl (i, e) ↦
        let (inside, match) = s.found ks k i sorted e in rw e (ground (arith, sorted i j))
    | inr (i, e) ↦ let (_, _, above) = s.missing ks k i sorted e in rw e (ground (arith, above j))
  ]

  -- Nor does an equal key, if it is the only one.
  pub le-landing_unique :
      (j : ℕ)
      → j < length ks
      → get_or ks j 0 ≤ k
      → ((i : ℕ) → i < length ks → get_or ks i 0 ≡ k → get_or ks j 0 ≡ k → i ≡ j)
      → j ≤ landing (s.search ks k)
  unfolding landing
  le-landing_unique j bound small unique = elim (Result-cases (s.search ks k)) [
    | inl (i, e) ↦
        let (inside, match) = s.found ks k i sorted e in rw e (ground (arith, sorted i j, unique i))
    | inr (i, e) ↦ let (_, _, above) = s.missing ks k i sorted e in rw e (ground (arith, above j))
  ]

  -- The start does not reach a bound that the keys up to `k` stay under.
  pub landing-near :
      (b : ℕ)
      → 0 < b
      → ((i : ℕ) → i < length ks → get_or ks i 0 ≤ k → i < b)
      → landing (s.search ks k) < b
  unfolding landing
  landing-near b positive near = elim (Result-cases (s.search ks k)) [
    | inl (l, e) ↦
        let (inside, match) = s.found ks k l sorted e in rw e (near l inside (omega arith))
    | inr (l, e) ↦
        let (bound, below, _) = s.missing ks k l sorted e in
        rw e (ground (arith, below (l - 1), near (l - 1)))
  ]
