-- ===== src/Aws/Load.antt =====
-- `load_bundled`: the table is well formed, and its prefixes are those of the file.
use lowping.Base.{
  ℕ, zero, suc, ◌%◌, ◌^◌, ◌≤◌, ◌<◌, ◌≡◌, ◌⊎◌, refl, sym, ap, ◌∙◌, List, [], ◌∷◌, ◌++◌, map, length,
  get_elem?, get_or, length-append, append_assoc, All, All-append, Bool-cases, some, Option-cases,
  inl, inr, arith,
}
use lowping.Base.Bytes.{Bytes}
use lowping.Base.Eq.{list_eq, nat_eq}
use lowping.Base.Dict.{get, insert, get-insert}
use lowping.Aws.{
  AwsRanges, Prefix, CompiledPrefix, Loading, parse_cidr, region_entry, load_prefix, load_all,
  dedup, dedup_after, load_bundled, same_prefix,
}
use lowping.Aws.Search.{IsSorted}
use lowping.Aws.Walk.{get_of_All, All-of_get}
use lowping.Aws.Lookup.{IsLookup}

-- The order of the sort key.
abbrev pub KeyLe : CompiledPrefix → CompiledPrefix → Type 0
KeyLe p q = (p.network < q.network) ⊎ ((p.network ≡ q.network) × (p.mask_len ≤ q.mask_len))

abbrev pub Ascending : List CompiledPrefix → Type 0
Ascending [] = Unit {0}
Ascending (p ∷ ps) = All (KeyLe p) ps × Ascending ps

-- `sort_by_key`: the output is ascending, and its elements are those of the input.
pub record Sort : Type 0 where
  pub sort : List CompiledPrefix → List CompiledPrefix
  pub ascending : (ps : List CompiledPrefix) → Ascending (sort ps)
  pub kept :
      (ps : List CompiledPrefix) (i : ℕ) (p : CompiledPrefix)
      → get_elem? (sort ps) i ≡ some p
      → (j : ℕ) × (get_elem? ps j ≡ some p)

sort-All {π} :
    (s : Sort) (P : CompiledPrefix → Type π) (ps : List CompiledPrefix)
    → All P ps
    → All P (s.sort ps)
sort-All s P ps h =
    All-of_get P (s.sort ps) (λ i p e. let (j, at) = s.kept ps i p e in get_of_All P ps j p h at)

module _ {π} (P : CompiledPrefix → Type π) where
  dedup_after-All :
      (last : CompiledPrefix) (ps : List CompiledPrefix) → All P ps → All P (dedup_after last ps)
  unfolding dedup_after
  dedup_after-All last [] h = h
  dedup_after-All last (p ∷ ps) h = elim (Bool-cases (same_prefix p last)) [
    | inl same ↦ rw same (dedup_after-All last ps h.1)
    | inr new ↦ rw new (h.0, dedup_after-All p ps h.1)
  ]

  dedup-All : (ps : List CompiledPrefix) → All P ps → All P (dedup ps)
  unfolding dedup
  dedup-All [] h = h
  dedup-All (p ∷ ps) h = (h.0, dedup_after-All p ps h.1)

dedup_after-Ascending :
    (last : CompiledPrefix) (ps : List CompiledPrefix)
    → Ascending ps
    → Ascending (dedup_after last ps)
unfolding dedup_after
dedup_after-Ascending last [] h = h
dedup_after-Ascending last (p ∷ ps) h = elim (Bool-cases (same_prefix p last)) [
  | inl same ↦ rw same (dedup_after-Ascending last ps h.1)
  | inr new ↦ rw new (dedup_after-All (KeyLe p) p ps h.0, dedup_after-Ascending p ps h.1)
]

dedup-Ascending : (ps : List CompiledPrefix) → Ascending ps → Ascending (dedup ps)
unfolding dedup
dedup-Ascending [] h = h
dedup-Ascending (p ∷ ps) h = (dedup_after-All (KeyLe p) p ps h.0, dedup_after-Ascending p ps h.1)

above_first :
    (p : CompiledPrefix) (ps : List CompiledPrefix) (j : ℕ)
    → All (KeyLe p) ps
    → j < length (map (λ q. q.network) ps)
    → p.network ≤ get_or (map (λ q. q.network) ps) j 0
above_first p [] j h bound = absurd (omega arith)
above_first p (q ∷ ps) zero h bound = ground (arith, h.0)
above_first p (q ∷ ps) (suc j) h bound = above_first p ps j h.1 (omega arith)

pub Ascending-IsSorted :
    (ps : List CompiledPrefix) → Ascending ps → IsSorted (map (λ q. q.network) ps)
Ascending-IsSorted [] h i j le bound = absurd (omega arith)
Ascending-IsSorted (p ∷ ps) h zero zero le bound = omega arith
Ascending-IsSorted (p ∷ ps) h zero (suc j) le bound = above_first p ps j h.0 (omega arith)
Ascending-IsSorted (p ∷ ps) h (suc i) zero le bound = absurd (omega arith)
Ascending-IsSorted (p ∷ ps) h (suc i) (suc j) le bound =
    Ascending-IsSorted ps h.1 i j (omega arith) (omega arith)

-- `parse_cidr` gives a mask of at most 32 bits.
parse_cidr-le :
    (text : Bytes) (net mask_len : ℕ) → parse_cidr text ≡ some (net, mask_len) → mask_len ≤ 32
unfolding parse_cidr
parse_cidr-le text net mask_len e = ground arith

module _ {ℓ} {A : Type ℓ} where
  get_elem?-append :
      (xs ys : List A) (i : ℕ) (x : A) → get_elem? xs i ≡ some x → get_elem? (xs ++ ys) i ≡ some x
  get_elem?-append [] ys i x e = absurd cc
  get_elem?-append (y ∷ xs) ys zero x e = e
  get_elem?-append (y ∷ xs) ys (suc i) x e = get_elem?-append xs ys i x e

  get_elem?-middle :
      (xs : List A) (x : A) (ys : List A) → get_elem? (xs ++ x ∷ ys) (length xs) ≡ some x
  get_elem?-middle [] x ys = refl
  get_elem?-middle (y ∷ xs) x ys = get_elem?-middle xs x ys

  lt_of_get : (xs : List A) (i : ℕ) (x : A) → get_elem? xs i ≡ some x → i < length xs
  lt_of_get [] i x e = absurd cc
  lt_of_get (y ∷ xs) zero x e = omega arith
  lt_of_get (y ∷ xs) (suc i) x e = let below = lt_of_get xs i x e in omega arith

-- A compiled prefix stands for a prefix of the file: its CIDR text and its region's name.
abbrev pub StandsFor : List Prefix → List Bytes → CompiledPrefix → Type 0
StandsFor all regions c =
    (i : ℕ) × (q : Prefix) × (get_elem? all i ≡ some q)
    × (parse_cidr q.ip_prefix ≡ some (c.network, c.mask_len))
    × (get_elem? regions c.region_idx ≡ some q.region)

-- The state of the loop after some of the prefixes.
record Loaded (all : List Prefix) (s : Loading) : Type 0 where
  indexed :
      (name : Bytes) (idx : ℕ)
      → get name s.region_to_idx ≡ some idx
      → get_elem? s.regions idx ≡ some name
  compiled : All (StandsFor all s.regions) s.compiled

grown :
    (all : List Prefix) (regions more : List Bytes) (cs : List CompiledPrefix)
    → All (StandsFor all regions) cs
    → All (StandsFor all (regions ++ more)) cs
grown all regions more [] h = tt
grown all regions more (c ∷ cs) ((i, q, e, read, at), rest) =
    ((i, q, e, read, get_elem?-append regions more _ _ at), grown all regions more cs rest)

module _ (all : List Prefix) (region : Bytes) (s : Loading) (h : Loaded all s) where
  entered : Loading
  entered = record s {
    region_to_idx = insert region (length s.regions % 2 ^ 32) s.region_to_idx;
    regions = s.regions ++ region ∷ [];
  }

  entered-last :
      length s.regions < 2 ^ 32
      → get_elem? (s.regions ++ region ∷ []) (length s.regions % 2 ^ 32) ≡ some region
  entered-last small =
      let same : length s.regions % 2 ^ 32 ≡ length s.regions = omega arith in
      ap (get_elem? (s.regions ++ region ∷ [])) same ∙ get_elem?-middle s.regions region []

  entered-Loaded : length s.regions < 2 ^ 32 → Loaded all entered
  unfolding entered
  entered-Loaded small = record {
    indexed = λ name idx e. elim (Bool-cases (list_eq.beq region name)) [
      | inl same ↦
          let at : length s.regions % 2 ^ 32 ≡ idx = ground (
            arith,
            rw same at (get-insert region name (length s.regions % 2 ^ 32) s.region_to_idx),
          ) in
          let named : region ≡ name = (list_eq.beq_iff region name).0 same in
          rw (← at, ← named) (entered-last small)
      | inr other ↦
          let old =
            sym (rw other at (get-insert region name (length s.regions % 2 ^ 32) s.region_to_idx))
            ∙ e in
          get_elem?-append s.regions (region ∷ []) idx name (h.indexed name idx old)
    ];
    compiled = grown all s.regions (region ∷ []) s.compiled h.compiled;
  }

  -- The entry of a region: its index leads to its name, and one region is added at most.
  region_entry-Loaded :
      length s.regions < 2 ^ 32
      → let (idx, s') = region_entry region s in
        Loaded all s'
        × (get_elem? s'.regions idx ≡ some region)
        × (length s'.regions ≤ suc (length s.regions))
        × (s'.compiled ≡ s.compiled)
  unfolding region_entry
  region_entry-Loaded small = elim (Option-cases (get region s.region_to_idx)) [
    | inr (idx, e) ↦ rw (e, region_entry) (h, h.indexed region idx e, omega arith, refl)
    | inl new ↦
        rw (new, region_entry)
          (unfold entered in
            (
              entered-Loaded small,
              entered-last small,
              omega (arith, length-append s.regions (region ∷ [])),
              refl,
            ))
  ]

module _ (all : List Prefix) where
  -- One step of the loop.
  load_prefix-Loaded :
      (i : ℕ) (p : Prefix) (s : Loading)
      → get_elem? all i ≡ some p
      → Loaded all s
      → length s.regions < 2 ^ 32
      → Loaded all (load_prefix p s) × (length (load_prefix p s).regions ≤ suc (length s.regions))
  unfolding load_prefix
  load_prefix-Loaded i p s e h small = elim (Option-cases (parse_cidr p.ip_prefix)) [
    | inl bad ↦ rw (bad, load_prefix) (h, omega arith)
    | inr ((net, mask_len), read) ↦
        let (h', at, fits, same) = region_entry-Loaded all p.region s h small in
        rw (read, load_prefix)
          (
            record {
              indexed = h'.indexed;
              compiled = All-append _ _ _ h'.compiled ((i, p, e, read, at), tt);
            },
            fits,
          )
  ]

  load_all-Loaded :
      (front ps : List Prefix) (s : Loading)
      → front ++ ps ≡ all
      → Loaded all s
      → length s.regions ≤ length front
      → length all < 2 ^ 32
      → Loaded all (load_all ps s)
  unfolding load_all
  load_all-Loaded front [] s whole h fits small = h
  load_all-Loaded front (p ∷ ps) s whole h fits small =
      let size = ap length whole in
      let here = ap (λ w. get_elem? w (length front)) (sym whole) ∙ get_elem?-middle front p ps in
      let (h', fits') =
        load_prefix-Loaded (length front) p s here h
          (omega (arith, length-append front (p ∷ ps))) in
      load_all-Loaded (front ++ p ∷ []) ps (load_prefix p s)
        (append_assoc front (p ∷ []) ps ∙ whole) h' (omega (arith, length-append front (p ∷ [])))
        small

module _ (s : Sort) (raw : AwsRanges) where
  loaded_prefixes :
      length raw.prefixes < 2 ^ 32
      → All
          (StandsFor raw.prefixes (load_bundled s.sort raw).regions)
          (load_bundled s.sort raw).prefixes
  unfolding load_bundled
  loaded_prefixes small =
      let empty : Loaded raw.prefixes (record { region_to_idx = []; regions = []; compiled = [] }) =
        record { indexed = λ name idx e. absurd (unfold get in cc); compiled = tt } in
      let h = load_all-Loaded raw.prefixes [] raw.prefixes _ refl empty (omega arith) small in
      dedup-All _ _ (sort-All s _ _ h.compiled)

  -- The table that is loaded from a file of fewer than 2^32 prefixes is sorted, with masks of at most 32
  -- bits and regions that the table has, and each of its prefixes is one of the file's: its network and
  -- mask are read from that prefix's CIDR text, and its region is that prefix's.
  pub load_bundled-IsLookup :
      length raw.prefixes < 2 ^ 32
      → IsLookup (load_bundled s.sort raw)
        × All
            (StandsFor raw.prefixes (load_bundled s.sort raw).regions)
            (load_bundled s.sort raw).prefixes
  load_bundled-IsLookup small =
      let t = load_bundled s.sort raw in
      let stands = loaded_prefixes small in
      (
        record {
          sorted = unfold load_bundled in Ascending-IsSorted _ (dedup-Ascending _ (s.ascending _));
          masks = All-of_get _ t.prefixes (λ i c e.
              let (_, q, _, read, _) = get_of_All _ t.prefixes i c stands e in
              parse_cidr-le q.ip_prefix c.network c.mask_len read);
          regions = All-of_get _ t.prefixes (λ i c e.
              let (_, q, _, _, at) = get_of_All _ t.prefixes i c stands e in
              lt_of_get t.regions c.region_idx q.region at);
        },
        stands,
      )
