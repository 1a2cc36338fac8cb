-- ===== src/Base/Patch.antt =====
-- `copy_from_slice` into part of a buffer.
use lowping.Base.Lists.{
  length, take, drop, get_or, length-append, length-take, length-drop, take-append,
}
use Prim.Native.Nat.{ℕ, zero, suc, ◌+◌, ◌≤◌}
use mathlib.Core.Path.{◌≡◌, refl, ap, ◌∙◌}
use mathlib.Core.List.{List, [], ◌∷◌, ◌++◌}
use native.Mathlib.Omega.{arith}

-- `out[off..off + bs.len()].copy_from_slice(bs)`
unfoldable pub patch {ℓ} : {A : Type ℓ} → ℕ → List A → List A → List A
patch off bs out = take off out ++ (bs ++ drop (off + length bs) out)

module _ {ℓ} {A : Type ℓ} where
  pub length-patch :
      (off : ℕ) (bs out : List A)
      → off + length bs ≤ length out
      → length (patch off bs out) ≡ length out
  unfolding patch
  length-patch off bs out h = omega (
    arith,
    length-append (take off out) (bs ++ drop (off + length bs) out),
    length-append bs (drop (off + length bs) out),
    length-take off out,
    length-drop (off + length bs) out,
  )

  patch-suc :
      (off : ℕ) (bs : List A) (x : A) (xs : List A)
      → patch (suc off) bs (x ∷ xs) ≡ x ∷ patch off bs xs
  unfolding patch
  patch-suc off bs x xs =
      let step : suc off + length bs ≡ suc (off + length bs) = omega arith in
      ap (λ k. x ∷ (take off xs ++ (bs ++ drop k (x ∷ xs)))) step

  patch-zero : (bs out : List A) → patch 0 bs out ≡ bs ++ drop (length bs) out
  unfolding patch
  patch-zero bs out =
      let step : 0 + length bs ≡ length bs = omega arith in ap (λ k. bs ++ drop k out) step

  -- What stands before the patch.
  pub take-patch :
      (k off : ℕ) (bs out : List A)
      → k ≤ off
      → off + length bs ≤ length out
      → take k (patch off bs out) ≡ take k out
  take-patch zero off bs out h fits = refl
  take-patch (suc k) zero bs out h fits = absurd (omega arith)
  take-patch (suc k) (suc off) bs [] h fits = absurd (omega arith)
  take-patch (suc k) (suc off) bs (x ∷ xs) h fits =
      ap (take (suc k)) (patch-suc off bs x xs)
      ∙ ap (λ r. x ∷ r) (take-patch k off bs xs (omega arith) (omega arith))

  drop-patch_front :
      (k : ℕ) (bs out : List A)
      → length bs ≤ k
      → length bs ≤ length out
      → drop k (bs ++ drop (length bs) out) ≡ drop k out
  drop-patch_front k [] out h fits = refl
  drop-patch_front zero (b ∷ bs) out h fits = absurd (omega arith)
  drop-patch_front (suc k) (b ∷ bs) [] h fits = absurd (omega arith)
  drop-patch_front (suc k) (b ∷ bs) (x ∷ xs) h fits =
      drop-patch_front k bs xs (omega arith) (omega arith)

  -- What stands behind the patch.
  pub drop-patch :
      (k off : ℕ) (bs out : List A)
      → off + length bs ≤ k
      → off + length bs ≤ length out
      → drop k (patch off bs out) ≡ drop k out
  drop-patch k zero bs out h fits =
      ap (drop k) (patch-zero bs out) ∙ drop-patch_front k bs out (omega arith) (omega arith)
  drop-patch k (suc off) bs [] h fits = absurd (omega arith)
  drop-patch zero (suc off) bs (x ∷ xs) h fits = absurd (omega arith)
  drop-patch (suc k) (suc off) bs (x ∷ xs) h fits =
      ap (drop (suc k)) (patch-suc off bs x xs) ∙ drop-patch k off bs xs (omega arith) (omega arith)

  -- The patch itself, behind a cut.
  pub take-drop-patch :
      (n off : ℕ) (bs out : List A)
      → length bs ≡ n
      → off + n ≤ length out
      → take n (drop off (patch off bs out)) ≡ bs
  take-drop-patch n zero bs out h fits =
      ap (take n) (patch-zero bs out) ∙ take-append n bs (drop (length bs) out) h
  take-drop-patch n (suc off) bs [] h fits = absurd (omega arith)
  take-drop-patch n (suc off) bs (x ∷ xs) h fits =
      ap (λ r. take n (drop (suc off) r)) (patch-suc off bs x xs)
      ∙ take-drop-patch n off bs xs h (omega arith)

  -- A part that ends before the patch.
  pub take-drop-patch_before :
      (n lo off : ℕ) (bs out : List A)
      → lo + n ≤ off
      → off + length bs ≤ length out
      → take n (drop lo (patch off bs out)) ≡ take n (drop lo out)
  take-drop-patch_before n zero off bs out h fits = take-patch n off bs out (omega arith) fits
  take-drop-patch_before n (suc lo) zero bs out h fits = absurd (omega arith)
  take-drop-patch_before n (suc lo) (suc off) bs [] h fits = absurd (omega arith)
  take-drop-patch_before n (suc lo) (suc off) bs (x ∷ xs) h fits =
      ap (λ r. take n (drop (suc lo) r)) (patch-suc off bs x xs)
      ∙ take-drop-patch_before n lo off bs xs (omega arith) (omega arith)

  pub get_or-patch_before :
      (off : ℕ) (bs out : List A) (d : A)
      → 1 ≤ off
      → off + length bs ≤ length out
      → get_or (patch off bs out) 0 d ≡ get_or out 0 d
  get_or-patch_before zero bs out d h fits = absurd (omega arith)
  get_or-patch_before (suc off) bs [] d h fits = absurd (omega arith)
  get_or-patch_before (suc off) bs (x ∷ xs) d h fits =
      ap (λ r. get_or r 0 d) (patch-suc off bs x xs)
