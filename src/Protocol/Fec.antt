-- ===== src/Protocol/Fec.antt =====
-- crates/gr-protocol/src/fec.rs: blocks of data and parity shards. The Reed-Solomon code is the
-- crate's and enters as an interface; the checks around it are modelled.
pub mod Recovery
use lowping.Base.{
  ℕ, ◌+◌, ◌≤◌, ◌<◌, ◌≡◌, ◌⊎◌, Bool, true, ◌||◌, not, List, [], ◌∷◌, ◌++◌, map, length, take, drop,
  replicate, get_or, Option, none, some, Result, ok, err, bail_if, ok_or, ◌>>=◌, ◌>>◌, ◌==◌, ltb,
  All, if◌then◌else◌,
}
use lowping.Base.Bytes.{Bytes}

-- How many shards are there.
abbrev pub present : List (Option Bytes) → ℕ
present [] = 0
present (none ∷ os) = present os
present (some s ∷ os) = present os + 1

-- A received block: each shard is as it was sent, or lost.
abbrev pub Damaged : List Bytes → List (Option Bytes) → Type 0
Damaged [] [] = Unit {0}
Damaged [] (o ∷ os) = ⊥
Damaged (s ∷ ss) [] = ⊥
Damaged (s ∷ ss) (o ∷ os) = ((o ≡ none) ⊎ (o ≡ some s)) × Damaged ss os

-- reed-solomon-erasure over GF(2^8). `accepts` says for which sizes its constructor succeeds; a block
-- is encoded in place, parity last, and any `n` shards of it bring back the data.
pub record ReedSolomon : Type 0 where
  pub accepts : ℕ → ℕ → Bool
  pub encode : ℕ → ℕ → List Bytes → Option (List Bytes)
  pub reconstruct_data : ℕ → ℕ → List (Option Bytes) → Option (List (Option Bytes))
  pub encode_total :
      (n k size : ℕ) (shards : List Bytes)
      → accepts n k ≡ true
      → length shards ≡ n + k
      → 0 < size
      → All (λ s. length s ≡ size) shards
      → (out : List Bytes) × (encode n k shards ≡ some out)
  pub encode_keeps :
      (n k : ℕ) (shards out : List Bytes)
      → encode n k shards ≡ some out
      → (length out ≡ length shards) × (take n out ≡ take n shards)
  pub recovers :
      (n k : ℕ) (shards out : List Bytes) (received : List (Option Bytes))
      → accepts n k ≡ true
      → length shards ≡ n + k
      → encode n k shards ≡ some out
      → Damaged out received
      → n ≤ present received
      → (r : List (Option Bytes)) × (reconstruct_data n k received ≡ some r)
        × (take n r ≡ map some (take n out))

pub data FecError : Type 0 where
  invalid_config : ℕ → ℕ → FecError
  reed_solomon : FecError
  insufficient_shards : ℕ → ℕ → FecError
  inconsistent_shard_size : ℕ → ℕ → FecError

-- An encoder or a decoder: the sizes, for which the code's constructor succeeded.
pub record Coder : Type 0 where
  pub data_shards : ℕ
  pub parity_shards : ℕ

-- The loop over the shards: the first that differs in length is reported.
abbrev pub check_sizes : ℕ → List Bytes → Result FecError (Unit {0})
check_sizes expected [] = ok tt
check_sizes expected (s ∷ ss) =
    if not (length s == expected)
    then err (inconsistent_shard_size expected (length s))
    else check_sizes expected ss

module _ (rs : ReedSolomon) where
  unfoldable pub new_encoder : ℕ → ℕ → Result FecError Coder
  new_encoder n k = do
    bail_if (n == 0 || k == 0) (invalid_config n k)
    bail_if (not (rs.accepts n k)) reed_solomon
    ok (record { data_shards = n; parity_shards = k })

  unfoldable pub encode : Coder → List Bytes → Result FecError (List Bytes)
  encode c shards = do
    bail_if (not (length shards == c.data_shards)) (invalid_config (length shards) c.parity_shards)
    let shard_len = length (get_or shards 0 [])
    check_sizes shard_len shards
    let slots = shards ++ replicate c.parity_shards (replicate shard_len 0)
    out ← ok_or (rs.encode c.data_shards c.parity_shards slots) reed_solomon
    ok (drop c.data_shards out)

  unfoldable pub new_decoder : ℕ → ℕ → Result FecError Coder
  new_decoder n k = do
    bail_if (not (rs.accepts n k)) reed_solomon
    ok (record { data_shards = n; parity_shards = k })

  unfoldable pub reconstruct_data :
      Coder → List (Option Bytes) → Result FecError (List (Option Bytes))
  reconstruct_data c shards = do
    bail_if (not (length shards == c.data_shards + c.parity_shards))
        (invalid_config (length shards) 0)
    bail_if (ltb (present shards) c.data_shards)
        (insufficient_shards (present shards) c.data_shards)
    ok_or (rs.reconstruct_data c.data_shards c.parity_shards shards) reed_solomon
