-- ===== src/Tests/Aws.antt =====
-- A table of two nested prefixes, and one of a wide prefix before 33 narrow ones.
use lowping.Base.{
  ℕ, zero, suc, ◌+◌, ◌-◌, ◌*◌, ◌≤◌, ◌<◌, ◌≡◌, refl, List, [], ◌∷◌, get_elem?, All, Option, none,
  some, ok, arith, inl,
}
use lowping.Base.Bytes.{Bytes, from_be}
use lowping.Base.Dict.{get, insert}
use lowping.Net.{v4}
use lowping.Net.Text.{
  split_once, parse_u8, parse_unsigned, parse_ipv4, read_octet, read_octets, span_digits,
  byte_value,
}
use lowping.Aws.{
  AwsRanges, AwsLookup, CompiledPrefix, parse_cidr, region_for, region_name, load_bundled, load_all,
  load_prefix, region_entry, dedup, dedup_after, walk, consider, landing,
}
use lowping.Aws.Search.{IsSorted}
use lowping.Aws.Walk.{Contains, scan}
use lowping.Aws.Lookup.{
  IsLookup, networks, StartsOnce, StartsNear, StartsFar, LongestRegion, region_for-scan,
  region_for_far, region_for_longest,
}
use lowping.Aws.Load.{KeyLe, Ascending, Ascending-IsSorted, StandsFor, load_bundled-IsLookup}
use lowping.Aws.Toys.{linear_search, insert_sorted, insertion_sort, toy_search, toy_sort}

-- "10.1.0.0/16", "10.0.0.0/8", "nonsense" and "10.1.0.0/16" again.
abbrev raw : AwsRanges
raw = record {
  sync_token = [];
  create_date = [];
  prefixes =
      record {
        ip_prefix = (49 ∷ 48 ∷ 46 ∷ 49 ∷ 46 ∷ 48 ∷ 46 ∷ 48 ∷ 47 ∷ 49 ∷ 54 ∷ []);
        region = (1 ∷ []);
        service = [];
      }
      ∷ record {
        ip_prefix = (49 ∷ 48 ∷ 46 ∷ 48 ∷ 46 ∷ 48 ∷ 46 ∷ 48 ∷ 47 ∷ 56 ∷ []);
        region = (2 ∷ []);
        service = [];
      }
      ∷ record { ip_prefix = (110 ∷ 111 ∷ []); region = (3 ∷ []); service = [] }
      ∷ record {
        ip_prefix = (49 ∷ 48 ∷ 46 ∷ 49 ∷ 46 ∷ 48 ∷ 46 ∷ 48 ∷ 47 ∷ 49 ∷ 54 ∷ []);
        region = (1 ∷ []);
        service = [];
      }
      ∷ [];
}

abbrev table : AwsLookup
table = record {
  sync_token = [];
  create_date = [];
  regions = (1 ∷ []) ∷ (2 ∷ []) ∷ [];
  prefixes =
      record { network = 0x0A000000; mask_len = 8; region_idx = 1 }
      ∷ record { network = 0x0A010000; mask_len = 16; region_idx = 0 }
      ∷ [];
}

loaded : load_bundled insertion_sort raw ≡ table
unfolding load_bundled load_all load_prefix region_entry parse_cidr split_once parse_u8
    parse_unsigned parse_ipv4 read_octet read_octets span_digits byte_value get insert dedup
    dedup_after insertion_sort insert_sorted from_be
loaded = refl

load_bundled-IsLookup_example :
    IsLookup (load_bundled insertion_sort raw)
    × All
        (StandsFor raw.prefixes (load_bundled insertion_sort raw).regions)
        (load_bundled insertion_sort raw).prefixes
load_bundled-IsLookup_example = load_bundled-IsLookup toy_sort raw (omega arith)

table-IsLookup : IsLookup table
table-IsLookup =
    let valid = (load_bundled-IsLookup toy_sort raw (omega arith)).0 in rw loaded at valid

octets : Bytes
octets = 10 ∷ 1 ∷ 2 ∷ 3 ∷ []

abbrev address : ℕ
address = 0x0A010203

octets-address : from_be octets ≡ address
unfolding from_be octets
octets-address = refl

once : StartsOnce table (from_be octets)
unfolding octets from_be
once zero j bound other at_i at_j = absurd (ground arith)
once (suc zero) j bound other at_i at_j = absurd (ground arith)
once (suc (suc i)) j bound other at_i at_j = absurd (omega arith)

near : StartsNear table (from_be octets)
near j p e c i bound low = omega arith

region_for-scan_example :
    region_for linear_search table (v4 octets)
    ≡ region_name table.regions (scan (from_be octets) table.prefixes none)
region_for-scan_example =
    region_for-scan toy_search table octets table-IsLookup.sorted (omega arith) once near

region_for_longest_example :
    (r : Option Bytes) × (region_for linear_search table (v4 octets) ≡ ok r)
    × LongestRegion table (from_be octets) r
region_for_longest_example =
    region_for_longest toy_search table octets table-IsLookup (omega arith) once near

-- The region of the /16, by a run.
looked_up : region_for linear_search table (v4 octets) ≡ ok (some (1 ∷ []))
unfolding region_for landing linear_search walk consider region_name from_be octets
looked_up = refl

-- A /8, and 33 prefixes /24 behind its start.
abbrev narrow_entry : ℕ → CompiledPrefix
narrow_entry n = record { network = 0x0A000000 + (34 - n) * 256; mask_len = 24; region_idx = 0 }

narrow : ℕ → List CompiledPrefix
narrow zero = []
narrow (suc n) = narrow_entry (suc n) ∷ narrow n

abbrev far_table : AwsLookup
far_table = record {
  sync_token = [];
  create_date = [];
  regions = (1 ∷ []) ∷ [];
  prefixes = record { network = 0x0A000000; mask_len = 8; region_idx = 0 } ∷ narrow 33;
}

narrow-above :
    (p : CompiledPrefix) (n : ℕ)
    → n ≤ 33
    → p.network < 0x0A000000 + (34 - n) * 256
    → All (KeyLe p) (narrow n)
unfolding narrow
narrow-above p zero small low = tt
narrow-above p (suc n) small low = (inl low, narrow-above p n (omega arith) (omega arith))

narrow-Ascending : (n : ℕ) → n ≤ 33 → Ascending (narrow n)
unfolding narrow
narrow-Ascending zero small = tt
narrow-Ascending (suc n) small = (
  narrow-above (narrow_entry (suc n)) n (omega arith) (omega arith),
  narrow-Ascending n (omega arith),
)

far_table-IsSorted : IsSorted (networks far_table)
far_table-IsSorted = Ascending-IsSorted far_table.prefixes (
  narrow-above (record { network = 0x0A000000; mask_len = 8; region_idx = 0 }) 33 (omega arith)
      (omega arith),
  narrow-Ascending 33 (omega arith),
)

far_octets : Bytes
far_octets = 10 ∷ 0 ∷ 200 ∷ 1 ∷ []

narrow_miss :
    (n j : ℕ) (p : CompiledPrefix)
    → n ≤ 33
    → get_elem? (narrow n) j ≡ some p
    → ¬ Contains (from_be far_octets) p
unfolding narrow far_octets from_be
narrow_miss zero j p small e = absurd cc
narrow_miss (suc n) zero p small e = ground arith
narrow_miss (suc n) (suc j) p small e = narrow_miss n j p (omega arith) e

far : StartsFar far_table (from_be far_octets)
unfolding narrow far_octets from_be
far zero p e c = (omega arith, omega arith)
far (suc j) p e c = absurd (narrow_miss 33 j p (omega arith) e c)

region_for_far_example : region_for linear_search far_table (v4 far_octets) ≡ ok none
region_for_far_example =
    region_for_far toy_search far_table far_octets far_table-IsSorted (omega arith) far

-- The scan of the whole table finds the /8.
far_scan : scan (from_be far_octets) far_table.prefixes none ≡ some (8, 0)
unfolding narrow far_octets from_be scan consider
far_scan = refl
