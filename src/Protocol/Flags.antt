-- ===== src/Protocol/Flags.antt =====
-- The `Flags` bit set of crates/gr-protocol/src/lib.rs: the byte that it wraps.
use Prim.Native.Nat.{ℕ, bit_and}
use mathlib.Core.Bool.{Bool}
use lowping.Base.{◌==◌}

abbrev pub empty : ℕ
empty = 0

abbrev pub fec_parity : ℕ
fec_parity = 0x10

abbrev pub syn : ℕ
syn = 0x20

abbrev pub fin : ℕ
fin = 0x40

abbrev pub redundant : ℕ
redundant = 0x80

-- `flags.contains(other)`
abbrev pub contains : ℕ → ℕ → Bool
contains flags other = bit_and flags other == other

-- Every bit of the mask names a flag.
abbrev pub from_bits_truncate : ℕ → ℕ
from_bits_truncate bits = bit_and bits 0xF0
