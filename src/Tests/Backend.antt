-- ===== src/Tests/Backend.antt =====
-- The signed directory of a backend with one bridge that is switched off.
use lowping.Base.{◌≡◌, refl, false, List, [], ◌∷◌, Option, none, some, arith, ◌==◌, if◌then◌else◌}
use lowping.Base.Bytes.{Bytes}
use lowping.Base.Int.{ℤ, ◌+ℤ◌, pos, negsuc, of_u64, to_u64}
use lowping.Crypto.Toys.{toy_suite}
use lowping.Backend.{
  AppState, BridgeEntry, BridgeDirectory, SignedDirectory, Json, Chrono, sign_directory, bridges,
}
use lowping.Tests.World.{backend, client_addr, from_some}

-- A format for directories of version 1 without bridges: the two times.
abbrev pub toy_write : ℤ → ℤ → List BridgeEntry → Option Bytes
toy_write (pos a) (pos b) [] = some (a ∷ b ∷ [])
toy_write (pos a) (pos b) (x ∷ xs) = none
toy_write (pos a) (negsuc b) xs = none
toy_write (negsuc a) b xs = none

abbrev pub toy_to_vec : BridgeDirectory → Option Bytes
toy_to_vec d = if d.version == 1 then toy_write d.issued_at d.expires_at d.bridges else none

abbrev pub toy_from_slice : Bytes → Option BridgeDirectory
toy_from_slice [] = none
toy_from_slice (a ∷ []) = none
toy_from_slice (a ∷ b ∷ []) =
    some (record { version = 1; issued_at = pos a; expires_at = pos b; bridges = [] })
toy_from_slice (a ∷ b ∷ c ∷ bs) = none

toy_from_slice-toy_write :
    (a b : ℤ) (xs : List BridgeEntry) (bs : Bytes)
    → toy_write a b xs ≡ some bs
    → toy_from_slice bs ≡ some (record { version = 1; issued_at = a; expires_at = b; bridges = xs })
toy_from_slice-toy_write (pos a) (pos b) [] bs e =
    let same : a ∷ b ∷ [] ≡ bs = ground arith in rw (← same) refl
toy_from_slice-toy_write (pos a) (pos b) (x ∷ xs) bs e = absurd cc
toy_from_slice-toy_write (pos a) (negsuc b) xs bs e = absurd cc
toy_from_slice-toy_write (negsuc a) b xs bs e = absurd cc

pub toy_from_slice-toy_to_vec :
    (d : BridgeDirectory) (bs : Bytes) → toy_to_vec d ≡ some bs → toy_from_slice bs ≡ some d
toy_from_slice-toy_to_vec d bs e =
    let one : d.version ≡ 1 = ground arith in
    let written : toy_write d.issued_at d.expires_at d.bridges ≡ some bs = ground arith in
    rw (← one) at (toy_from_slice-toy_write d.issued_at d.expires_at d.bridges bs written)

abbrev pub toy_json : Json
toy_json = record {
  to_vec = toy_to_vec;
  from_slice = toy_from_slice;
  from_slice-to_vec = toy_from_slice-toy_to_vec;
}

pub toy_add : (t d e : ℤ) → ◌≡◌ {A = Option ℤ} (some (t +ℤ d)) (some e) → e ≡ t +ℤ d
toy_add t d e same = cc

abbrev pub toy_chrono : Chrono
toy_chrono = record { add_seconds = λ t d. some (t +ℤ d); add_seconds-eq-some = toy_add }

abbrev switched_off : BridgeEntry
switched_off = record {
  id = [];
  name = [];
  region = [];
  zone = [];
  endpoint = client_addr;
  pubkey_hex = [];
  game_zones = [];
  enabled = false;
}

abbrev server : AppState
server = record backend { config = record backend.config { bridges = switched_off ∷ [] } }

abbrev nothing : SignedDirectory
nothing = record { payload_b64 = []; signature_b64 = [] }

abbrev published : SignedDirectory
published =
    from_some nothing (from_some none (bridges toy_suite toy_chrono toy_json server (pos 1000)))

publishes : bridges toy_suite toy_chrono toy_json server (pos 1000) ≡ some (some published)
unfolding ◌+ℤ◌ bridges sign_directory of_u64 to_u64
publishes = refl
