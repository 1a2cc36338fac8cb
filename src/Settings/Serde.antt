-- ===== src/Settings/Serde.antt =====
-- TOML values, the toml crate as an interface, and what serde's derives read of a value. A table is its
-- lookup, so it has no order; that a key stands once is the parser's to see.
use lowping.Base.{
  ℕ, ◌≡◌, Bool, List, [], ◌∷◌, Option, none, some, Result, ok, err, ok_or, ◌>>=◌, ltb,
  if◌then◌else◌,
}
use lowping.Base.Bytes.{Bytes}
use lowping.Base.Int.{ℤ, pos}
use lowping.Net.{IpAddr, SocketAddr}

mutual
  pub data Value (F : Type 0) : Type 0 where
    string : Bytes → Value F
    integer : ℤ → Value F
    float : F → Value F
    boolean : Bool → Value F
    array : Values F → Value F
    table : (Bytes → Slot F) → Value F

  pub data Values (F : Type 0) : Type 0 where
    nil : Values F
    cons : Value F → Values F → Values F

  -- What stands at a key.
  pub data Slot (F : Type 0) : Type 0 where
    absent : Slot F
    present : Value F → Slot F

abbrev pub Table : Type 0 → Type 0
Table F = Bytes → Slot F

-- The text of addresses, and the two floating types: an `f32` is written as an `f64` and read back.
pub record Formats : Type 1 where
  pub F64 : Type 0
  pub F32 : Type 0
  pub f32_zero : F32
  pub of_f32 : F32 → F64
  pub to_f32 : F64 → F32
  pub f32_of_int : ℤ → F32
  pub parse_addr : Bytes → Option SocketAddr
  pub parse_ip : Bytes → Option IpAddr
  pub show_addr : SocketAddr → Bytes
  pub to_f32-of_f32 : (x : F32) → to_f32 (of_f32 x) ≡ x
  pub parse_addr-show_addr : (a : SocketAddr) → parse_addr (show_addr a) ≡ some a

-- The toml crate: what it prints it reads back.
pub record Toml (F : Type 0) : Type 1 where
  pub Text : Type 0
  pub from_str : Text → Option (Table F)
  pub to_string_pretty : Table F → Option Text
  pub from_str-to_string_pretty :
      (t : Table F) (text : Text) → to_string_pretty t ≡ some text → from_str text ≡ some t

-- Why a value is not one of the type.
pub data Invalid : Type 0 where
  missing mismatched : Invalid

module _ {ℓ} {F : Type 0} {A : Type ℓ} (dec : Value F → Result Invalid A) where
  -- A field of a plain type.
  unfoldable pub required : Slot F → Result Invalid A
  required absent = err missing
  required (present v) = dec v

  -- A field with `#[serde(default)]`.
  unfoldable pub with_default : A → Slot F → Result Invalid A
  with_default d absent = ok d
  with_default d (present v) = dec v

  -- A field of type `Option`.
  unfoldable pub optional : Slot F → Result Invalid (Option A)
  optional absent = ok none
  optional (present v) = do a ← dec v; ok (some a)

  unfoldable pub each : Values F → Result Invalid (List A)
  each nil = ok []
  each (cons v vs) = do a ← dec v; rest ← each vs; ok (a ∷ rest)

  unfoldable pub as_list_of : Value F → Result Invalid (List A)
  as_list_of (array vs) = each vs
  as_list_of _ = err mismatched

module _ {F : Type 0} where
  unfoldable pub as_string : Value F → Result Invalid Bytes
  as_string (string s) = ok s
  as_string _ = err mismatched

  unfoldable pub as_bool : Value F → Result Invalid Bool
  as_bool (boolean b) = ok b
  as_bool _ = err mismatched

  -- An unsigned type of this many values. TOML's integers are those of `i64`.
  unfoldable pub as_unsigned : ℕ → Value F → Result Invalid ℕ
  as_unsigned bound (integer (pos n)) = if ltb n bound then ok n else err mismatched
  as_unsigned bound _ = err mismatched

  unfoldable pub as_table : Value F → Result Invalid (Table F)
  as_table (table t) = ok t
  as_table _ = err mismatched

module _ (fm : Formats) where
  unfoldable pub as_addr : Value fm.F64 → Result Invalid SocketAddr
  as_addr (string s) = ok_or (fm.parse_addr s) mismatched
  as_addr _ = err mismatched

  unfoldable pub as_ip : Value fm.F64 → Result Invalid IpAddr
  as_ip (string s) = ok_or (fm.parse_ip s) mismatched
  as_ip _ = err mismatched

  -- An integer is taken for a float.
  unfoldable pub as_f32 : Value fm.F64 → Result Invalid fm.F32
  as_f32 (float x) = ok (fm.to_f32 x)
  as_f32 (integer n) = ok (fm.f32_of_int n)
  as_f32 _ = err mismatched
