-- ===== src/Base/Dict.antt =====
-- `HashMap` as an association list with one entry for a key. No code here depends on the order in
-- which a map is iterated.
use lowping.Base.Tests.{if◌then◌else◌, Bool-cases}
use mathlib.Core.Logic.{inl, inr}
use lowping.Base.Lists.{length, All}
use lowping.Base.Eq.{Eq}
use Prim.Native.Nat.{◌+◌, ◌≤◌}
use mathlib.Core.Path.{◌≡◌, refl, subst}
use mathlib.Core.Bool.{Bool, not}
use mathlib.Core.List.{List, [], ◌∷◌}
use mathlib.Core.Option.{Option, none, some}
use native.Mathlib.Omega.{arith}

abbrev pub Dict {ℓ κ} : Type ℓ → Type κ → Type (ℓ ⊔ κ)
Dict K V = List (K × V)

module _ {ℓ κ} {K : Type ℓ} {V : Type κ} ⦃e : Eq K⦄ where
  unfoldable pub get : K → Dict K V → Option V
  get k [] = none
  get k ((j, v) ∷ m) = if e.beq j k then some v else get k m

  unfoldable pub insert : K → V → Dict K V → Dict K V
  insert k v [] = (k, v) ∷ []
  insert k v ((j, w) ∷ m) = if e.beq j k then (k, v) ∷ m else (j, w) ∷ insert k v m

  -- Each key stands once.
  abbrev pub NodupKeys : Dict K V → Type κ
  NodupKeys [] = Unit {κ}
  NodupKeys ((k, v) ∷ m) = (get k m ≡ none) × NodupKeys m

  unfoldable pub retain : (K → V → Bool) → Dict K V → Dict K V
  retain p [] = []
  retain p ((k, v) ∷ m) = if p k v then (k, v) ∷ retain p m else retain p m

  unfoldable pub remove : K → Dict K V → Dict K V
  remove k m = retain (λ j _. not (e.beq j k)) m

  pub get-insert :
      (k j : K) (v : V) (m : Dict K V)
      → get j (insert k v m) ≡ (if e.beq k j then some v else get j m)
  unfolding get insert
  get-insert k j v [] = refl
  get-insert k j v ((i, w) ∷ m) =
      ground (arith, e.beq_iff k j, e.beq_iff i k, e.beq_iff i j, get-insert k j v m)

  pub get-insert_same : (k : K) (v : V) (m : Dict K V) → get k (insert k v m) ≡ some v
  get-insert_same k v m = ground (arith, get-insert k k v m, e.beq_iff k k)

  pub get-retain :
      (p : K → V → Bool) (j : K) (m : Dict K V)
      → NodupKeys m
      → get j (retain p m)
        ≡ elim (get j m) [ none ↦ none | some v ↦ if p j v then some v else none ]
  unfolding get retain
  get-retain p j [] u = refl
  get-retain p j ((k, v) ∷ m) u = ground (arith, e.beq_iff k j, get-retain p j m u.1)

  pub retain-NodupKeys : (p : K → V → Bool) (m : Dict K V) → NodupKeys m → NodupKeys (retain p m)
  unfolding retain
  retain-NodupKeys p [] u = u
  retain-NodupKeys p ((k, v) ∷ m) u = ground (arith, get-retain p k m u.1, retain-NodupKeys p m u.1)

  pub insert-NodupKeys : (k : K) (v : V) (m : Dict K V) → NodupKeys m → NodupKeys (insert k v m)
  unfolding insert
  insert-NodupKeys k v [] u = (unfold get in refl, tt)
  insert-NodupKeys k v ((j, w) ∷ m) u =
      ground (arith, e.beq_iff j k, e.beq_iff k j, get-insert k j v m, insert-NodupKeys k v m u.1)

  pub get-remove :
      (k j : K) (m : Dict K V)
      → NodupKeys m
      → get j (remove k m) ≡ (if e.beq j k then none else get j m)
  unfolding remove
  get-remove k j m u = ground (arith, get-retain (λ i _. not (e.beq i k)) j m u)

  pub length-insert-le : (k : K) (v : V) (m : Dict K V) → length (insert k v m) ≤ length m + 1
  unfolding insert
  length-insert-le k v [] = omega arith
  length-insert-le k v ((j, w) ∷ m) = ground (arith, length-insert-le k v m)

  pub length-insert_present :
      (k : K) (v w : V) (m : Dict K V) → get k m ≡ some w → length (insert k v m) ≡ length m
  unfolding get insert
  length-insert_present k v w [] h = cc
  length-insert_present k v w ((j, x) ∷ m) h = ground (arith, length-insert_present k v w m)

  pub length-retain-le : (p : K → V → Bool) (m : Dict K V) → length (retain p m) ≤ length m
  unfolding retain
  length-retain-le p [] = omega arith
  length-retain-le p ((j, x) ∷ m) = ground (arith, length-retain-le p m)

  pub remove-NodupKeys : (k : K) (m : Dict K V) → NodupKeys m → NodupKeys (remove k m)
  unfolding remove
  remove-NodupKeys k m u = retain-NodupKeys _ m u

  pub length-remove-le : (k : K) (m : Dict K V) → length (remove k m) ≤ length m
  unfolding remove
  length-remove-le k m = length-retain-le _ m

  pub length-insert_absent :
      (k : K) (v : V) (m : Dict K V) → get k m ≡ none → length (insert k v m) ≡ length m + 1
  unfolding get insert
  length-insert_absent k v [] h = omega arith
  length-insert_absent k v ((j, x) ∷ m) h = ground (arith, length-insert_absent k v m)

  -- A property of all the values.
  pub insert-All {π} :
      (P : V → Type π) (k : K) (v : V) (m : Dict K V)
      → P v
      → All (λ kv. P kv.1) m
      → All (λ kv. P kv.1) (insert k v m)
  unfolding insert
  insert-All P k v [] p h = (p, tt)
  insert-All P k v ((j, w) ∷ m) p h = elim (Bool-cases (e.beq j k)) [
    | inl hit ↦ rw hit (p, h.1)
    | inr miss ↦ rw miss (h.0, insert-All P k v m p h.1)
  ]

  pub get-All {π} :
      (P : V → Type π) (k : K) (v : V) (m : Dict K V)
      → All (λ kv. P kv.1) m
      → get k m ≡ some v
      → P v
  unfolding get
  get-All P k v [] h found = absurd cc
  get-All P k v ((j, w) ∷ m) h found = elim (Bool-cases (e.beq j k)) [
    | inl hit ↦ subst P (ground arith) h.0
    | inr miss ↦ get-All P k v m h.1 (ground arith)
  ]
