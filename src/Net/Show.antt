-- ===== src/Net/Show.antt =====
-- Texts as bytes: the code points of a literal, and `Display` of numbers and addresses. All literals of
-- the program that are printed here are ASCII, save for the interface's arrows.
use Prim.Native.Char.{code}
use Prim.Native.String.{String}
use lowping.Base.{ℕ, zero, suc, ◌≡◌, refl, ◌+◌, ◌/◌, ◌%◌, List, [], ◌∷◌, ◌++◌, ltb, if◌then◌else◌}
use lowping.Base.Bytes.{Bytes}

abbrev pub codes : String → Bytes
codes String.[] = []
codes (String.◌∷◌ c s) = code c ∷ codes s

-- The digits of `n`, in front of `acc`. The quotient falls, so `n + 1` rounds are enough.
unfoldable pub digits : ℕ → ℕ → Bytes → Bytes
digits zero n acc = acc
digits (suc fuel) n acc =
    let acc' = (0x30 + n % 10) ∷ acc in
    let rest = digits fuel (n / 10) acc' in if ltb n 10 then acc' else rest

unfoldable pub show_nat : ℕ → Bytes
show_nat n = digits (suc n) n []

unfoldable pub join : Bytes → List Bytes → Bytes
join sep [] = []
join sep (x ∷ []) = x
join sep (x ∷ y ∷ ys) = x ++ (sep ++ join sep (y ∷ ys))

abbrev pub show_all : List ℕ → List Bytes
show_all [] = []
show_all (n ∷ ns) = show_nat n ∷ show_all ns

-- `Display` of an IPv4 address.
unfoldable pub show_ipv4 : Bytes → Bytes
show_ipv4 octets = join (codes ".") (show_all octets)

shown : show_ipv4 (127 ∷ 0 ∷ 0 ∷ 1 ∷ []) ≡ codes "127.0.0.1"
unfolding show_ipv4 show_nat digits join
shown = refl
