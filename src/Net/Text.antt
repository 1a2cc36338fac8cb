-- ===== src/Net/Text.antt =====
-- What the standard library's parsers read: `split_once`, `u8::from_str`, `Ipv4Addr::from_str`, on bytes.
pub mod Laws
use lowping.Base.{
  ℕ, zero, suc, ◌+◌, ◌-◌, ◌*◌, Bool, true, false, List, map, ◌&&◌, ◌||◌, not, [], ◌∷◌, length,
  Option, none, some, ◌==◌, ltb, leb, if◌then◌else◌,
}
use lowping.Base.Bytes.{Bytes}

unfoldable pub split_once : ℕ → Bytes → Option (Bytes × Bytes)
split_once c [] = none
split_once c (b ∷ bs) =
    let rest = split_once c bs in
    if b == c
    then some ([], bs)
    else elim rest [ none ↦ none | some (front, back) ↦ some (b ∷ front, back) ]

abbrev pub is_digit : ℕ → Bool
is_digit c = leb 0x30 c && leb c 0x39

-- The digits at the front, and what follows.
unfoldable pub span_digits : Bytes → Bytes × Bytes
span_digits [] = ([], [])
span_digits (b ∷ bs) =
    let (ds, rest) = span_digits bs in if is_digit b then (b ∷ ds, rest) else ([], b ∷ bs)

-- A number that stays within a byte at every digit.
unfoldable pub byte_value : ℕ → Bytes → Option ℕ
byte_value acc [] = some acc
byte_value acc (d ∷ ds) =
    let next = acc * 10 + (d - 0x30) in
    let rest = byte_value next ds in if ltb 255 next then none else rest

-- `u8::from_str`: one leading plus sign is allowed.
unfoldable pub parse_unsigned : Bytes → Option ℕ
parse_unsigned s =
    let (ds, rest) = span_digits s in
    if length ds == 0 || ltb 0 (length rest) then none else byte_value 0 ds

unfoldable pub parse_u8 : Bytes → Option ℕ
parse_u8 [] = none
parse_u8 (b ∷ bs) = if b == 0x2B then parse_unsigned bs else parse_unsigned (b ∷ bs)

-- One part of a dotted address: one to three digits, without a leading zero.
abbrev pub leading_zero : Bytes → Bool
leading_zero (d ∷ e ∷ ds) = d == 0x30
leading_zero _ = false

unfoldable pub read_octet : Bytes → Option (ℕ × Bytes)
read_octet s =
    let (ds, rest) = span_digits s in
    if length ds == 0 || ltb 3 (length ds) || leading_zero ds
    then none
    else elim (byte_value 0 ds) [ none ↦ none | some v ↦ some (v, rest) ]

-- The parts that follow a dot.
unfoldable pub read_octets : ℕ → Bytes → Option (Bytes × Bytes)
read_octets zero s = some ([], s)
read_octets (suc n) [] = none
read_octets (suc n) (b ∷ bs) = if not (b == 0x2E) then none else elim (read_octet bs) [
  | none ↦ none
  | some (v, rest) ↦ elim (read_octets n rest) [ none ↦ none | some (vs, end) ↦ some (v ∷ vs, end) ]
]

unfoldable pub parse_ipv4 : Bytes → Option Bytes
parse_ipv4 s = if ltb 15 (length s) then none else elim (read_octet s) [
  | none ↦ none
  | some (v, rest) ↦ elim (read_octets 3 rest) [
    | none ↦ none
    | some (vs, end) ↦ if length end == 0 then some (v ∷ vs) else none
  ]
]

-- `split`: the parts between the separators, one at least.
abbrev pub cons_head : ℕ → List Bytes → List Bytes
cons_head b [] = (b ∷ []) ∷ []
cons_head b (part ∷ parts) = (b ∷ part) ∷ parts

unfoldable pub split : ℕ → Bytes → List Bytes
split c [] = [] ∷ []
split c (b ∷ bs) = let parts = split c bs in if b == c then [] ∷ parts else cons_head b parts

-- `to_lowercase`, on ASCII.
abbrev pub lower : ℕ → ℕ
lower b = if leb 0x41 b && leb b 0x5A then b + 0x20 else b

unfoldable pub to_lower : Bytes → Bytes
to_lower s = map lower s

unfoldable pub starts_with : Bytes → Bytes → Bool
starts_with [] s = true
starts_with (p ∷ ps) [] = false
starts_with (p ∷ ps) (b ∷ bs) = b == p && starts_with ps bs

unfoldable pub contains : Bytes → Bytes → Bool
contains needle [] = starts_with needle []
contains needle (b ∷ bs) = starts_with needle (b ∷ bs) || contains needle bs

-- A number that stays within a bound at every digit; `from_str` of an unsigned type.
unfoldable pub bounded_value : ℕ → ℕ → Bytes → Option ℕ
bounded_value most acc [] = some acc
bounded_value most acc (d ∷ ds) =
    let next = acc * 10 + (d - 0x30) in
    let rest = bounded_value most next ds in
    if not (is_digit d) then none else if ltb most next then none else rest

unfoldable pub from_digits : ℕ → Bytes → Option ℕ
from_digits most [] = none
from_digits most (d ∷ ds) = bounded_value most 0 (d ∷ ds)

unfoldable pub parse_bounded : ℕ → Bytes → Option ℕ
parse_bounded most [] = none
parse_bounded most (b ∷ bs) = if b == 0x2B then from_digits most bs else from_digits most (b ∷ bs)

abbrev pub parse_u32 : Bytes → Option ℕ
parse_u32 = parse_bounded 0xFFFFFFFF

abbrev pub parse_u16 : Bytes → Option ℕ
parse_u16 = parse_bounded 0xFFFF

-- `rsplitn(2, …)`: a cut at the last separator.
unfoldable pub rsplit_once : ℕ → Bytes → Option (Bytes × Bytes)
rsplit_once c [] = none
rsplit_once c (b ∷ bs) = elim (rsplit_once c bs) [
  | some (front, back) ↦ some (b ∷ front, back)
  | none ↦ if b == c then some ([], bs) else none
]
