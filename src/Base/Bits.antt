-- ===== src/Base/Bits.antt =====
-- The two nibbles of a byte: what masks and shifts give, as arithmetic. The laws are read off one table.
use lowping.Base.Tests.{◌==◌}
use Prim.Native.Nat.{ℕ, zero, suc, ◌*◌, ◌/◌, ◌%◌, ◌<◌, bit_and, bit_or}
use mathlib.Core.Path.{◌≡◌, refl}
use mathlib.Core.Bool.{Bool, true, ◌&&◌}
use native.Mathlib.Omega.{arith}

-- The three laws at one byte.
nibble_laws : ℕ → Bool
nibble_laws byte =
    bit_and byte 0x0F == byte % 16
    && bit_and byte 0xF0 == byte / 16 * 16
    && bit_or (byte % 16) (byte / 16 * 16) == byte

table : ℕ → Bool
table zero = true
table (suc byte) = table byte && nibble_laws byte

table-at : (size byte : ℕ) → byte < size → table size ≡ true → nibble_laws byte ≡ true
unfolding table
table-at zero byte below whole = absurd (omega arith)
table-at (suc size) byte below whole = ground (arith, table-at size byte)

bytes_table : table 256 ≡ true
unfolding table nibble_laws
bytes_table = refl

nibbles :
    (byte : ℕ)
    → byte < 256
    → (bit_and byte 0x0F ≡ byte % 16)
      × (bit_and byte 0xF0 ≡ byte / 16 * 16)
      × (bit_or (byte % 16) (byte / 16 * 16) ≡ byte)
unfolding nibble_laws
nibbles byte below =
    let laws = table-at 256 byte below bytes_table in (ground arith, ground arith, ground arith)

pub low_nibble : (byte : ℕ) → byte < 256 → bit_and byte 0x0F ≡ byte % 16
low_nibble byte below = (nibbles byte below).0

pub high_nibble : (byte : ℕ) → byte < 256 → bit_and byte 0xF0 ≡ byte / 16 * 16
high_nibble byte below = (nibbles byte below).1

-- A low nibble or'ed with a high one is their sum.
pub join_nibbles : (byte : ℕ) → byte < 256 → bit_or (byte % 16) (byte / 16 * 16) ≡ byte
join_nibbles byte below = (nibbles byte below).2
