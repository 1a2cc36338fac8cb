-- ===== src/Net/Text/Laws.antt =====
-- Cuts at a separator that the parts lack, and numbers: what is shown is read.
use lowping.Base.{
  ℕ, zero, suc, ◌+◌, ◌-◌, ◌*◌, ◌/◌, ◌%◌, ◌≤◌, ◌<◌, ◌≡◌, refl, ◌∙◌, true, false, [], ◌∷◌, ◌++◌, none,
  some, All, Bool-cases, inl, inr, arith, ◌==◌, ltb, leb, ltb_of_le, ltb→lt, le_of_ltb, ==_iff,
  leb_of_le, ◌≢◌,
}
use lowping.Base.Bytes.{Bytes}
use lowping.Net.Show.{digits, show_nat}
use lowping.Net.Text.{
  split, split_once, rsplit_once, is_digit, bounded_value, from_digits, parse_bounded,
}

-- The text lacks the byte.
abbrev pub Lacks : ℕ → Bytes → Type 0
Lacks c = All (λ b. (b == c) ≡ false)

pub Lacks-append : (c : ℕ) (s t : Bytes) → Lacks c s → Lacks c t → Lacks c (s ++ t)
Lacks-append c [] t hs ht = ht
Lacks-append c (b ∷ s) t hs ht = (hs.0, Lacks-append c s t hs.1 ht)

pub split-append : (c : ℕ) (s t : Bytes) → Lacks c s → split c (s ++ (c ∷ t)) ≡ s ∷ split c t
unfolding split
split-append c [] t h = let same : (c == c) ≡ true = ground arith in rw same refl
split-append c (b ∷ s) t (other, h) = rw (other, split-append c s t h) refl

pub split-one : (c : ℕ) (s : Bytes) → Lacks c s → split c s ≡ s ∷ []
unfolding split
split-one c [] h = refl
split-one c (b ∷ s) (other, h) = rw (other, split-one c s h) refl

pub split_once-append :
    (c : ℕ) (s t : Bytes) → Lacks c s → split_once c (s ++ (c ∷ t)) ≡ some (s, t)
unfolding split_once
split_once-append c [] t h = let same : (c == c) ≡ true = ground arith in rw same refl
split_once-append c (b ∷ s) t (other, h) = rw (other, split_once-append c s t h) refl

pub split_once-none : (c : ℕ) (s : Bytes) → Lacks c s → split_once c s ≡ none
unfolding split_once
split_once-none c [] h = refl
split_once-none c (b ∷ s) (other, h) = rw (other, split_once-none c s h) refl

rsplit_once-none : (c : ℕ) (s : Bytes) → Lacks c s → rsplit_once c s ≡ none
unfolding rsplit_once
rsplit_once-none c [] h = refl
rsplit_once-none c (b ∷ s) (other, h) = rw (rsplit_once-none c s h, rsplit_once, other) refl

pub rsplit_once-append :
    (c : ℕ) (s t : Bytes) → Lacks c t → rsplit_once c (s ++ (c ∷ t)) ≡ some (s, t)
unfolding rsplit_once
rsplit_once-append c [] t h =
    let same : (c == c) ≡ true = ground arith in rw (rsplit_once-none c t h, rsplit_once, same) refl
rsplit_once-append c (b ∷ s) t h = rw (rsplit_once-append c s t h, rsplit_once) refl

abbrev pub Digits : Bytes → Type 0
Digits = All (λ d. is_digit d ≡ true)

digit_differs : (c d : ℕ) → is_digit c ≡ false → is_digit d ≡ true → (d == c) ≡ false
digit_differs c d other digit = elim (Bool-cases (d == c)) [
  | inr differs ↦ differs
  | inl same ↦ let one : d ≡ c = (==_iff d c).0 same in absurd (cc)
]

pub Digits-Lacks : (c : ℕ) (s : Bytes) → is_digit c ≡ false → Digits s → Lacks c s
Digits-Lacks c [] other h = tt
Digits-Lacks c (d ∷ s) other (digit, h) = (digit_differs c d other digit, Digits-Lacks c s other h)

last_digit : (n : ℕ) → is_digit (0x30 + n % 10) ≡ true
last_digit n =
    let low : leb 0x30 (0x30 + n % 10) ≡ true = leb_of_le _ _ (omega arith) in
    let high : leb (0x30 + n % 10) 0x39 ≡ true = leb_of_le _ _ (omega arith) in rw (low, high) refl

digits-Digits : (fuel n : ℕ) (acc : Bytes) → Digits acc → Digits (digits fuel n acc)
unfolding digits
digits-Digits zero n acc h = h
digits-Digits (suc fuel) n acc h = elim (Bool-cases (ltb n 10)) [
  | inl end ↦ rw end (last_digit n, h)
  | inr more ↦ rw more (digits-Digits fuel (n / 10) _ (last_digit n, h))
]

pub show_nat-Digits : (n : ℕ) → Digits (show_nat n)
unfolding show_nat
show_nat-Digits n = digits-Digits (suc n) n [] tt

bounded_value-cons :
    (most acc n : ℕ) (ds : Bytes)
    → acc * 10 + n % 10 ≡ n
    → n ≤ most
    → bounded_value most acc ((0x30 + n % 10) ∷ ds) ≡ bounded_value most n ds
unfolding bounded_value
bounded_value-cons most acc n ds value fits =
    let digit = last_digit n in
    let next : acc * 10 + (0x30 + n % 10 - 0x30) ≡ n = omega arith in
    let small = ltb_of_le most n fits in rw (digit, next, small) refl

bounded_value-digits :
    (fuel most n : ℕ) (acc : Bytes)
    → n < fuel
    → n ≤ most
    → bounded_value most 0 (digits fuel n acc) ≡ bounded_value most n acc
unfolding digits
bounded_value-digits zero most n acc enough fits = absurd (omega arith)
bounded_value-digits (suc fuel) most n acc enough fits = elim (Bool-cases (ltb n 10)) [
  | inl end ↦
      let small = ltb→lt n 10 end in rw end (bounded_value-cons most 0 n acc (omega arith) fits)
  | inr more ↦
      let large = le_of_ltb n 10 more in
      rw more (
        bounded_value-digits fuel most (n / 10) _ (omega arith) (omega arith)
        ∙ bounded_value-cons most (n / 10) n acc (omega arith) fits)
]

-- A text of digits that is not empty starts with no plus sign.
parse_bounded-Digits :
    (most n : ℕ) (s : Bytes)
    → Digits s
    → s ≢ []
    → bounded_value most 0 s ≡ some n
    → parse_bounded most s ≡ some n
unfolding parse_bounded from_digits
parse_bounded-Digits most n [] h nonempty value = absurd (nonempty refl)
parse_bounded-Digits most n (d ∷ ds) (digit, h) nonempty value =
    rw (digit_differs 0x2B d refl digit) value

digits-ne-nil : (fuel n : ℕ) (acc : Bytes) → acc ≢ [] → digits fuel n acc ≢ []
unfolding digits
digits-ne-nil zero n acc h = h
digits-ne-nil (suc fuel) n acc h = elim (Bool-cases (ltb n 10)) [
  | inl end ↦ rw end (λ e. cc)
  | inr more ↦ rw more (digits-ne-nil fuel (n / 10) _ (λ e. cc))
]

show_nat-ne-nil : (n : ℕ) → show_nat n ≢ []
unfolding show_nat digits
show_nat-ne-nil n = elim (Bool-cases (ltb n 10)) [
  | inl end ↦ rw end (λ e. cc)
  | inr more ↦ rw more (digits-ne-nil n (n / 10) _ (λ e. cc))
]

-- A number that is shown is read again, in every type that holds it.
pub parse_bounded-show_nat : (most n : ℕ) → n ≤ most → parse_bounded most (show_nat n) ≡ some n
parse_bounded-show_nat most n fits =
    let value : bounded_value most 0 (show_nat n) ≡ some n =
      unfold show_nat bounded_value in bounded_value-digits (suc n) most n [] (omega arith) fits in
    parse_bounded-Digits most n (show_nat n) (show_nat-Digits n) (show_nat-ne-nil n) value
