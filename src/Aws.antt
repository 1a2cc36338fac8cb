-- ===== src/Aws.antt =====
-- crates/gr-common/src/aws_regions.rs: the table of AWS prefixes, and the lookup of an address. Strings
-- are their bytes. Sorting and binary search are parameters, with what the standard library documents.
pub mod Search
pub mod Walk
pub mod Lookup
pub mod Load
pub mod Toys
use Prim.Native.Nat.{bit_and}
use lowping.Base.{
  ℕ, zero, suc, ◌+◌, ◌-◌, ◌*◌, ◌%◌, ◌^◌, ◌≤◌, ◌<◌, min, ◌≡◌, Bool, true, false, ◌&&◌, List, [], ◌∷◌,
  ◌++◌, map, length, get_elem?, Option, none, some, Result, ok, err, ok_or, ◌>>=◌, ◌==◌, ltb, leb,
  if◌then◌else◌,
}
use lowping.Base.Bytes.{Bytes, from_be}
use lowping.Base.Eq.{list_eq, nat_eq}
use lowping.Base.Dict.{Dict, get, insert}
use lowping.Net.{IpAddr, v4, v6}
use lowping.Net.Text.{split_once, parse_u8, parse_ipv4}

-- What serde reads from the bundled file.
pub record Prefix : Type 0 where
  pub ip_prefix : Bytes
  pub region : Bytes
  pub service : Bytes

pub record AwsRanges : Type 0 where
  pub sync_token : Bytes
  pub create_date : Bytes
  pub prefixes : List Prefix

pub record CompiledPrefix : Type 0 where
  pub network : ℕ
  pub mask_len : ℕ
  pub region_idx : ℕ

pub record AwsLookup : Type 0 where
  pub sync_token : Bytes
  pub create_date : Bytes
  pub regions : List Bytes
  pub prefixes : List CompiledPrefix

abbrev pub u32_max : ℕ
u32_max = 0xFFFFFFFF

-- An index that is out of range panics.
pub data Panic : Type 0 where
  index_out_of_bounds : Panic

-- `parse_cidr`. The mask is `!0u32 << (32 - mask_len)`, whose high bits are shifted out.
abbrev pub mask_word : ℕ → ℕ
mask_word mask_len = if mask_len == 0 then 0 else u32_max * 2 ^ (32 - mask_len) % 2 ^ 32

unfoldable pub parse_cidr : Bytes → Option (ℕ × ℕ)
parse_cidr s = elim (split_once 0x2F s) [
  | none ↦ none
  | some (ip, mask) ↦ elim (parse_u8 mask) [
    | none ↦ none
    | some mask_len ↦ if ltb 32 mask_len then none else elim (parse_ipv4 ip) [
      | none ↦ none
      | some octets ↦ some (bit_and (from_be octets) (mask_word mask_len), mask_len)
    ]
  ]
]

-- The state of the loop of `load_bundled`: the index of each region, the regions, the prefixes read.
pub record Loading : Type 0 where
  pub region_to_idx : Dict Bytes ℕ
  pub regions : List Bytes
  pub compiled : List CompiledPrefix

-- `entry(region).or_insert_with(…)`.
unfoldable pub region_entry : Bytes → Loading → ℕ × Loading
region_entry region s = elim (get region s.region_to_idx) [
  | some idx ↦ (idx, s)
  | none ↦
      let id = length s.regions % 2 ^ 32 in
      (
        id,
        record s {
          region_to_idx = insert region id s.region_to_idx;
          regions = s.regions ++ region ∷ [];
        },
      )
]

unfoldable pub load_prefix : Prefix → Loading → Loading
load_prefix p s = elim (parse_cidr p.ip_prefix) [
  | none ↦ s
  | some (net, mask_len) ↦
      let (idx, s') = region_entry p.region s in
      record s' {
        compiled =
            s'.compiled ++ record { network = net; mask_len = mask_len; region_idx = idx } ∷ [];
      }
]

unfoldable pub load_all : List Prefix → Loading → Loading
load_all [] s = s
load_all (p ∷ ps) s = load_all ps (load_prefix p s)

abbrev pub same_prefix : CompiledPrefix → CompiledPrefix → Bool
same_prefix a b = a.network == b.network && a.mask_len == b.mask_len && a.region_idx == b.region_idx

-- `dedup_by`: an element that equals the one kept last is dropped.
unfoldable pub dedup_after : CompiledPrefix → List CompiledPrefix → List CompiledPrefix
dedup_after last [] = []
dedup_after last (c ∷ cs) = if same_prefix c last then dedup_after last cs else c ∷ dedup_after c cs

unfoldable pub dedup : List CompiledPrefix → List CompiledPrefix
dedup [] = []
dedup (c ∷ cs) = c ∷ dedup_after c cs

unfoldable pub load_bundled : (List CompiledPrefix → List CompiledPrefix) → AwsRanges → AwsLookup
load_bundled sort raw =
    let s = load_all raw.prefixes (record { region_to_idx = []; regions = []; compiled = [] }) in
    record {
      sync_token = raw.sync_token;
      create_date = raw.create_date;
      regions = s.regions;
      prefixes = dedup (sort s.compiled);
    }

-- The last address of a prefix, with `saturating_add`.
abbrev pub net_size : CompiledPrefix → ℕ
net_size p =
    let host_bits = 32 - p.mask_len in if host_bits == 32 then u32_max else 2 ^ host_bits - 1

abbrev pub last_address : CompiledPrefix → ℕ
last_address p = min (p.network + net_size p) u32_max

-- The loop body: the best prefix so far, as mask and region.
unfoldable pub consider : ℕ → CompiledPrefix → Option (ℕ × ℕ) → Option (ℕ × ℕ)
consider v p best =
    if ltb v p.network
    then best
    else if leb v (last_address p)
    then elim best [
      | none ↦ some (p.mask_len, p.region_idx)
      | some (m, r) ↦ if ltb m p.mask_len then some (p.mask_len, p.region_idx) else some (m, r)
    ]
    else best

-- `for back in 0..count`, at the index `i`.
unfoldable pub walk :
    List CompiledPrefix → ℕ → ℕ → ℕ → Option (ℕ × ℕ) → Result Panic (Option (ℕ × ℕ))
walk prefixes v i zero best = ok best
walk prefixes v i (suc count) best = ok_or (get_elem? prefixes i) index_out_of_bounds >>= λ p.
    walk prefixes v (i - 1) count (consider v p best)

-- Where the walk starts.
unfoldable pub landing : Result ℕ ℕ → ℕ
landing (ok i) = i
landing (err i) = i - 1

-- `self.regions[idx]`, if a prefix was found.
unfoldable pub region_name : List Bytes → Option (ℕ × ℕ) → Result Panic (Option Bytes)
region_name regions none = ok none
region_name regions (some (m, idx)) =
    ok_or (get_elem? regions idx) index_out_of_bounds >>= λ name. ok (some name)

-- `region_for`, with the binary search in the list of networks as a parameter.
unfoldable pub region_for :
    (List ℕ → ℕ → Result ℕ ℕ) → AwsLookup → IpAddr → Result Panic (Option Bytes)
region_for search t (v6 octets) = ok none
region_for search t (v4 octets) =
    let v = from_be octets in
    let idx = landing (search (map (λ p. p.network) t.prefixes) v) in
    walk t.prefixes v idx (min 32 (idx + 1)) none >>= λ best. region_name t.regions best

unfoldable pub region_count : AwsLookup → ℕ
region_count t = length t.regions

unfoldable pub prefix_count : AwsLookup → ℕ
prefix_count t = length t.prefixes
