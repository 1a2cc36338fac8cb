-- ===== src/Client/Router/Millis.antt =====
-- The part of `f64` that the router uses, with what IEEE 754 says of it; and a small instance.
use lowping.Base.{ℕ, ◌+◌, ◌≡◌, refl, Bool, true, false, Option, none, some, ltb, arith}

pub record Float : Type 1 where
  pub F : Type 0
  pub add : F → F → F
  pub lt : F → F → Bool
  pub infinity : F
  pub is_nan : F → Bool
  -- A comparison is an order where it holds,
  pub lt_irrefl : (a : F) → lt a a ≡ false
  pub lt_asymm : (a b : F) → lt a b ≡ true → lt b a ≡ false
  -- through a number that is not NaN it is linear,
  pub lt_linear : (a b c : F) → is_nan b ≡ false → lt a b ≡ false → lt b c ≡ false → lt a c ≡ false
  -- and nothing is above infinity.
  pub lt_infinity : (a : F) → lt infinity a ≡ false

-- Natural numbers with infinity, which is `none`.
abbrev toy_add : Option ℕ → Option ℕ → Option ℕ
toy_add none b = none
toy_add (some a) none = none
toy_add (some a) (some b) = some (a + b)

abbrev toy_lt : Option ℕ → Option ℕ → Bool
toy_lt none b = false
toy_lt (some a) none = true
toy_lt (some a) (some b) = ltb a b

pub toy_irrefl : (a : Option ℕ) → toy_lt a a ≡ false
toy_irrefl none = refl
toy_irrefl (some a) = ground arith

pub toy_asymm : (a b : Option ℕ) → toy_lt a b ≡ true → toy_lt b a ≡ false
toy_asymm none b h = absurd cc
toy_asymm (some a) none h = refl
toy_asymm (some a) (some b) h = ground arith

pub toy_linear : (a b c : Option ℕ) → toy_lt a b ≡ false → toy_lt b c ≡ false → toy_lt a c ≡ false
toy_linear none b c h k = refl
toy_linear (some a) none c h k = absurd cc
toy_linear (some a) (some b) none h k = absurd cc
toy_linear (some a) (some b) (some c) h k = ground arith

abbrev pub toy_float : Float
toy_float = record {
  F = Option ℕ;
  add = toy_add;
  lt = toy_lt;
  infinity = none;
  is_nan = λ a. false;
  lt_irrefl = toy_irrefl;
  lt_asymm = toy_asymm;
  lt_linear = λ a b c n h k. toy_linear a b c h k;
  lt_infinity = λ a. refl;
}
