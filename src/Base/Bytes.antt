-- ===== src/Base/Bytes.antt =====
-- Byte strings, and Rust's `to_be_bytes` / `from_be_bytes` at any width.
use lowping.Base.Lists.{length, All, All-reverse, length-reverse}
use Prim.Native.Nat.{ℕ, zero, suc, ◌+◌, ◌*◌, ◌/◌, ◌%◌, ◌^◌, ◌<◌}
use mathlib.Core.Path.{◌≡◌, refl, sym, ap, ◌∙◌, subst}
use mathlib.Core.List.{List, [], ◌∷◌, reverse, reverse-reverse}
use native.Mathlib.Omega.{arith}

abbrev pub Bytes : Type 0
Bytes = List ℕ

abbrev pub IsBytes : Bytes → Type 0
IsBytes = All (λ b. b < 256)

-- Lowest byte first.
abbrev pub to_le : ℕ → ℕ → Bytes
to_le zero v = []
to_le (suc k) v = (v % 256) ∷ to_le k (v / 256)

abbrev pub from_le : Bytes → ℕ
from_le [] = 0
from_le (b ∷ bs) = b + 256 * from_le bs

unfoldable pub to_be : ℕ → ℕ → Bytes
to_be k v = reverse (to_le k v)

unfoldable pub from_be : Bytes → ℕ
from_be bs = from_le (reverse bs)

from_le-to_le : (k v : ℕ) → v < 256 ^ k → from_le (to_le k v) ≡ v
from_le-to_le zero v h = omega arith
from_le-to_le (suc k) v h = omega (arith, from_le-to_le k (v / 256) (omega arith))

to_le-from_le : (bs : Bytes) → IsBytes bs → to_le (length bs) (from_le bs) ≡ bs
to_le-from_le [] h = refl
to_le-from_le (b ∷ bs) h =
    let low : (b + 256 * from_le bs) % 256 ≡ b = omega arith in
    let high : (b + 256 * from_le bs) / 256 ≡ from_le bs = omega arith in
    rw (low, high, to_le-from_le bs h.1)

length-to_le : (k v : ℕ) → length (to_le k v) ≡ k
length-to_le zero v = refl
length-to_le (suc k) v = ap suc (length-to_le k (v / 256))

to_le-IsBytes : (k v : ℕ) → IsBytes (to_le k v)
to_le-IsBytes zero v = tt
to_le-IsBytes (suc k) v = (omega arith, to_le-IsBytes k (v / 256))

from_le-lt : (bs : Bytes) → IsBytes bs → from_le bs < 256 ^ length bs
from_le-lt [] h = omega arith
from_le-lt (b ∷ bs) h =
    let bound : b + 256 * from_le bs < 256 ^ suc (length bs) = omega (arith, from_le-lt bs h.1) in
    bound

pub from_be-to_be : (k v : ℕ) → v < 256 ^ k → from_be (to_be k v) ≡ v
unfolding from_be to_be
from_be-to_be k v h = rw (reverse-reverse (to_le k v)) (from_le-to_le k v h)

pub to_be-from_be : (bs : Bytes) → IsBytes bs → to_be (length bs) (from_be bs) ≡ bs
unfolding from_be to_be
to_be-from_be bs h =
    rw (← length-reverse bs, to_le-from_le (reverse bs) (All-reverse _ bs h)) (reverse-reverse bs)

pub length-to_be : (k v : ℕ) → length (to_be k v) ≡ k
unfolding to_be
length-to_be k v = length-reverse (to_le k v) ∙ length-to_le k v

pub to_be-IsBytes : (k v : ℕ) → IsBytes (to_be k v)
unfolding to_be
to_be-IsBytes k v = All-reverse _ (to_le k v) (to_le-IsBytes k v)

pub from_be-lt : (bs : Bytes) → IsBytes bs → from_be bs < 256 ^ length bs
unfolding from_be
from_be-lt bs h =
    subst (λ n. from_le (reverse bs) < 256 ^ n) (length-reverse bs)
      (from_le-lt (reverse bs) (All-reverse _ bs h))

-- Widths that are written down elsewhere as a numeral.
pub to_be-from_be_at : (k : ℕ) (bs : Bytes) → length bs ≡ k → IsBytes bs → to_be k (from_be bs) ≡ bs
to_be-from_be_at k bs e h = subst (λ n. to_be n (from_be bs) ≡ bs) e (to_be-from_be bs h)

pub from_be-lt_at : (k : ℕ) (bs : Bytes) → length bs ≡ k → IsBytes bs → from_be bs < 256 ^ k
from_be-lt_at k bs e h = subst (λ n. from_be bs < 256 ^ n) e (from_be-lt bs h)

pub to_be-injective : (k v w : ℕ) → v < 256 ^ k → w < 256 ^ k → to_be k v ≡ to_be k w → v ≡ w
to_be-injective k v w hv hw e = sym (from_be-to_be k v hv) ∙ ap from_be e ∙ from_be-to_be k w hw
