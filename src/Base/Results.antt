-- ===== src/Base/Results.antt =====
-- Rust's `Result`, with the error type as a parameter, and its `?` as bind.
use mathlib.Core.Path.{◌≡◌, refl, ap}
use mathlib.Core.Bool.{Bool, true, false}
use mathlib.Core.Logic.{◌⊎◌, inl, inr}
use mathlib.Core.Option.{Option, none, some}

pub data Result {ℓ κ} (E : Type ℓ) (A : Type κ) : Type (ℓ ⊔ κ) where
  ok : A → Result E A
  err : E → Result E A

-- `?`: an error ends the block.
abbrev pub ◌>>=◌ {ε α β} :
    {Err : Type ε} {From : Type α} {To : Type β}
    → Result Err From
    → (From → Result Err To)
    → Result Err To
err x >>= next = err x
ok value >>= next = next value

infixl 5 ◌>>=◌ ◌>>◌
abbrev pub ◌>>◌ {ε β} :
    {Err : Type ε} {To : Type β} → Result Err (Unit {0}) → Result Err To → Result Err To
first >> second = first >>= λ done. second

-- `if b { return Err(e) }`
abbrev pub bail_if {ℓ} : {E : Type ℓ} → Bool → E → Result E (Unit {0})
bail_if true e = err e
bail_if false e = ok tt

-- `ok_or`
abbrev pub ok_or {ℓ κ} : {E : Type ℓ} {A : Type κ} → Option A → E → Result E A
ok_or none e = err e
ok_or (some a) e = ok a

abbrev pub map_err {ℓ κ μ} :
    {E : Type ℓ} {F : Type κ} {A : Type μ} → (E → F) → Result E A → Result F A
map_err f (ok a) = ok a
map_err f (err e) = err (f e)

pub Result-cases {ℓ κ} :
    {E : Type ℓ} {A : Type κ} (r : Result E A) → ((a : A) × (r ≡ ok a)) ⊎ ((e : E) × (r ≡ err e))
Result-cases (ok a) = inl (a, refl)
Result-cases (err e) = inr (e, refl)

-- Inversion of a successful `?`.
pub >>=-eq-ok {ε α β} :
    {Err : Type ε} {From : Type α} {To : Type β} (r : Result Err From) (next : From → Result Err To)
    {to : To}
    → (r >>= next) ≡ ok to
    → (from : From) × (r ≡ ok from) × (next from ≡ ok to)
>>=-eq-ok (ok a) next h = (a, refl, h)
>>=-eq-ok (err e) next h = absurd cc

pub ok_injective {ε α} :
    {Err : Type ε} {A : Type α} (a b : A) → ◌≡◌ {A = Result Err A} (ok a) (ok b) → a ≡ b
ok_injective a b e = cc

pub map_err-eq-ok {ε φ α} :
    {Err : Type ε} {Err' : Type φ} {A : Type α} (f : Err → Err') (r : Result Err A) (a : A)
    → map_err f r ≡ ok a
    → r ≡ ok a
map_err-eq-ok f (ok b) a e = ap ok (ok_injective b a e)
map_err-eq-ok f (err x) a e = absurd cc
