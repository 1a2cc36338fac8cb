-- ===== src/Aws/Toys.antt =====
-- A linear search and an insertion sort, which show that the two parameters of the table's model exist.
use lowping.Base.{
  ℕ, zero, suc, ◌≤◌, ◌<◌, ◌≡◌, List, [], ◌∷◌, length, get_elem?, get_or, All, Bool, ◌&&◌, ◌||◌,
  Bool-cases, Result, ok, err, Result-cases, some, inl, inr, arith, ◌==◌, ltb, leb, if◌then◌else◌,
}
use lowping.Aws.{CompiledPrefix}
use lowping.Aws.Search.{BinarySearch, IsSorted}
use lowping.Aws.Walk.{All-of_get, get_of_All}
use lowping.Aws.Load.{KeyLe, Ascending, Sort}

abbrev shift : Result ℕ ℕ → Result ℕ ℕ
shift (ok i) = ok (suc i)
shift (err i) = err (suc i)

unfoldable pub linear_search : List ℕ → ℕ → Result ℕ ℕ
linear_search [] k = err 0
linear_search (x ∷ xs) k =
    let rest = linear_search xs k in if x == k then ok 0 else if ltb k x then err 0 else shift rest

pub linear_search-found :
    (ks : List ℕ) (k i : ℕ) → linear_search ks k ≡ ok i → (i < length ks) × (get_or ks i 0 ≡ k)
unfolding linear_search
linear_search-found [] k i e = absurd cc
linear_search-found (x ∷ xs) k i e = elim (Result-cases (linear_search xs k)) [
  | inl (j, rest) ↦ let (inside, match) = linear_search-found xs k j rest in ground arith
  | inr (j, rest) ↦ ground arith
]

below_suc :
    (x : ℕ) (xs : List ℕ) (k i n : ℕ)
    → suc n ≡ i
    → x < k
    → ((j : ℕ) → j < n → get_or xs j 0 < k)
    → (j : ℕ) → j < i
    → get_or (x ∷ xs) j 0 < k
below_suc x xs k i n at upper below zero h = upper
below_suc x xs k i n at upper below (suc j) h = below j (omega arith)

above_suc :
    (x : ℕ) (xs : List ℕ) (k i n : ℕ)
    → suc n ≡ i
    → ((j : ℕ) → n ≤ j → j < length xs → k < get_or xs j 0)
    → (j : ℕ) → i ≤ j
    → j < length (x ∷ xs)
    → k < get_or (x ∷ xs) j 0
above_suc x xs k i n at above zero h bound = absurd (omega arith)
above_suc x xs k i n at above (suc j) h bound = above j (omega arith) (omega arith)

pub linear_search-missing :
    (ks : List ℕ) (k i : ℕ)
    → IsSorted ks
    → linear_search ks k ≡ err i
    → (i ≤ length ks)
      × ((j : ℕ) → j < i → get_or ks j 0 < k)
      × ((j : ℕ) → i ≤ j → j < length ks → k < get_or ks j 0)
unfolding linear_search
linear_search-missing [] k i sorted e =
    let at : 0 ≡ i = ground arith in
    (omega arith, (λ j h. absurd (omega arith)), (λ j h bound. absurd (omega arith)))
linear_search-missing (x ∷ xs) k i sorted e = elim (Bool-cases (ltb k x)) [
  | inl small ↦
      let at : 0 ≡ i = ground arith in
      (
        omega arith,
        (λ j h. absurd (omega arith)),
        (λ j h bound.
            let least : x ≤ get_or (x ∷ xs) j 0 = sorted 0 j (omega arith) bound in
            let lower : k < x = ground arith in omega arith),
      )
  | inr large ↦ elim (Result-cases (linear_search xs k)) [
    | inl (n, rest) ↦ absurd (ground arith)
    | inr (n, rest) ↦
        let tail : IsSorted xs =
          λ i j le bound. sorted (suc i) (suc j) (omega arith) (omega arith) in
        let (inside, below, above) = linear_search-missing xs k n tail rest in
        let at : suc n ≡ i = ground arith in
        let upper : x < k = ground arith in
        (omega arith, below_suc x xs k i n at upper below, above_suc x xs k i n at above)
  ]
]

abbrev pub toy_search : BinarySearch
toy_search = record {
  search = linear_search;
  found = λ ks k i sorted e. linear_search-found ks k i e;
  missing = linear_search-missing;
}

abbrev key_leb : CompiledPrefix → CompiledPrefix → Bool
key_leb p q = ltb p.network q.network || (p.network == q.network && leb p.mask_len q.mask_len)

unfoldable pub insert_sorted : CompiledPrefix → List CompiledPrefix → List CompiledPrefix
insert_sorted p [] = p ∷ []
insert_sorted p (q ∷ qs) =
    let rest = insert_sorted p qs in if key_leb p q then p ∷ q ∷ qs else q ∷ rest

unfoldable pub insertion_sort : List CompiledPrefix → List CompiledPrefix
insertion_sort [] = []
insertion_sort (p ∷ ps) = insert_sorted p (insertion_sort ps)

module _ {π} (P : CompiledPrefix → Type π) where
  insert_sorted-All :
      (p : CompiledPrefix) (ps : List CompiledPrefix) → P p → All P ps → All P (insert_sorted p ps)
  unfolding insert_sorted
  insert_sorted-All p [] h hs = (h, tt)
  insert_sorted-All p (q ∷ qs) h hs = elim (Bool-cases (key_leb p q)) [
    | inl le ↦ rw le (h, hs)
    | inr gt ↦ rw gt (hs.0, insert_sorted-All p qs h hs.1)
  ]

  insertion_sort-All : (ps : List CompiledPrefix) → All P ps → All P (insertion_sort ps)
  unfolding insertion_sort
  insertion_sort-All [] h = tt
  insertion_sort-All (p ∷ ps) h =
      insert_sorted-All p (insertion_sort ps) h.0 (insertion_sort-All ps h.1)

KeyLe-trans :
    (p q : CompiledPrefix) (qs : List CompiledPrefix)
    → KeyLe p q
    → All (KeyLe q) qs
    → All (KeyLe p) qs
KeyLe-trans p q [] le h = tt
KeyLe-trans p q (r ∷ qs) le h = (ground (arith, h.0), KeyLe-trans p q qs le h.1)

insert_sorted-Ascending :
    (p : CompiledPrefix) (ps : List CompiledPrefix) → Ascending ps → Ascending (insert_sorted p ps)
unfolding insert_sorted
insert_sorted-Ascending p [] h = (tt, tt)
insert_sorted-Ascending p (q ∷ qs) h = elim (Bool-cases (key_leb p q)) [
  | inl le ↦
      let first : KeyLe p q = ground arith in rw le ((first, KeyLe-trans p q qs first h.0), h)
  | inr gt ↦
      rw gt (insert_sorted-All (KeyLe q) p qs (ground arith) h.0, insert_sorted-Ascending p qs h.1)
]

pub insertion_sort-Ascending : (ps : List CompiledPrefix) → Ascending (insertion_sort ps)
unfolding insertion_sort
insertion_sort-Ascending [] = tt
insertion_sort-Ascending (p ∷ ps) =
    insert_sorted-Ascending p (insertion_sort ps) (insertion_sort-Ascending ps)

-- Where an element of a list stands.
abbrev pub StandsIn : List CompiledPrefix → CompiledPrefix → Type 0
StandsIn ps p = (j : ℕ) × (get_elem? ps j ≡ some p)

pub insertion_sort-kept :
    (ps : List CompiledPrefix) (i : ℕ) (p : CompiledPrefix)
    → get_elem? (insertion_sort ps) i ≡ some p
    → StandsIn ps p
insertion_sort-kept ps i p e =
    get_of_All (StandsIn ps) (insertion_sort ps) i p
      (insertion_sort-All (StandsIn ps) ps (All-of_get (StandsIn ps) ps (λ j q at. (j, at)))) e

abbrev pub toy_sort : Sort
toy_sort = record {
  sort = insertion_sort;
  ascending = insertion_sort-Ascending;
  kept = insertion_sort-kept;
}
