-- ===== src/Tests/Fec.antt =====
-- One block through a repetition code, with the data shard lost.
use lowping.Base.{
  ℕ, zero, suc, ◌+◌, ◌≤◌, ◌<◌, ◌≡◌, refl, sym, subst, inl, inr, true, List, [], ◌∷◌, map, All,
  length, take, replicate, length-replicate, Option, none, some, ok, arith, ◌==◌, if◌then◌else◌,
}
use lowping.Base.Bytes.{Bytes}
use lowping.Protocol.Fec
use lowping.Protocol.Fec.{
  ReedSolomon, Coder, Damaged, present, new_encoder, new_decoder, reconstruct_data,
}
use lowping.Protocol.Fec.Recovery.{reconstruct_data-encode}

-- One data shard, and its copies for parity.
abbrev copies : ℕ → List Bytes → Option (List Bytes)
copies n [] = none
copies n (d ∷ ds) = if n == 1 then some (replicate (length (d ∷ ds)) d) else none

abbrev first_present : List (Option Bytes) → Option (List (Option Bytes))
first_present [] = none
first_present (none ∷ os) = first_present os
first_present (some s ∷ os) = some (some s ∷ [])

copies_total :
    (n k size : ℕ) (shards : List Bytes)
    → (n == 1) ≡ true
    → length shards ≡ n + k
    → 0 < size
    → All (λ s. length s ≡ size) shards
    → (out : List Bytes) × (copies n shards ≡ some out)
copies_total n k size [] one long room same = absurd (ground arith)
copies_total n k size (d ∷ ds) one long room same = (replicate (length (d ∷ ds)) d, rw one refl)

copies_keeps :
    (n k : ℕ) (shards out : List Bytes)
    → copies n shards ≡ some out
    → (length out ≡ length shards) × (take n out ≡ take n shards)
copies_keeps n k [] out e = absurd cc
copies_keeps n k (d ∷ ds) out e =
    let one : n ≡ 1 = ground arith in
    let same : replicate (length (d ∷ ds)) d ≡ out = ground arith in
    rw (one, ← same) (length-replicate (length (d ∷ ds)) d, refl)

first_present-replicate :
    (m : ℕ) (d : Bytes) (received : List (Option Bytes))
    → Damaged (replicate m d) received
    → 1 ≤ present received
    → first_present received ≡ some (some d ∷ [])
first_present-replicate zero d [] lost enough = absurd (omega arith)
first_present-replicate zero d (o ∷ os) lost enough = absurd lost
first_present-replicate (suc m) d [] lost enough = absurd lost
first_present-replicate (suc m) d (none ∷ os) lost enough =
    first_present-replicate m d os lost.1 enough
first_present-replicate (suc m) d (some s ∷ os) (inl gone, lost) enough = absurd cc
first_present-replicate (suc m) d (some s ∷ os) (inr here, lost) enough = cc

copies_recover :
    (n k : ℕ) (shards out : List Bytes) (received : List (Option Bytes))
    → (n == 1) ≡ true
    → length shards ≡ n + k
    → copies n shards ≡ some out
    → Damaged out received
    → n ≤ present received
    → (r : List (Option Bytes)) × (first_present received ≡ some r)
      × (take n r ≡ map some (take n out))
copies_recover n k [] out received one long e lost enough = absurd cc
copies_recover n k (d ∷ ds) out received one long e lost enough =
    let single : n ≡ 1 = ground arith in
    let same : replicate (length (d ∷ ds)) d ≡ out = ground arith in
    (
      some d ∷ [],
      first_present-replicate (length (d ∷ ds)) d received
          (subst (λ o. Damaged o received) (sym same) lost) (omega arith),
      rw (single, ← same) refl,
    )

abbrev toy_code : ReedSolomon
toy_code = record {
  accepts = λ n k. n == 1;
  encode = λ n k shards. copies n shards;
  reconstruct_data = λ n k received. first_present received;
  encode_total = copies_total;
  encode_keeps = copies_keeps;
  recovers = copies_recover;
}

abbrev coder : Coder
coder = record { data_shards = 1; parity_shards = 2 }

abbrev shard : Bytes
shard = 1 ∷ 2 ∷ []

makes : new_encoder toy_code 1 2 ≡ ok coder
unfolding new_encoder
makes = refl

encodes : Fec.encode toy_code coder (shard ∷ []) ≡ ok (shard ∷ shard ∷ [])
unfolding Fec.encode
encodes = refl

reconstruct_data-encode_example :
    (new_decoder toy_code 1 2 ≡ ok coder)
    × (r : List (Option Bytes)) × (reconstruct_data toy_code coder (none ∷ none ∷ some shard ∷ [])
        ≡ ok r)
    × (take 1 r ≡ map some (shard ∷ []))
reconstruct_data-encode_example =
    reconstruct_data-encode toy_code 1 2 coder (shard ∷ []) (shard ∷ shard ∷ [])
      (none ∷ none ∷ some shard ∷ []) makes encodes (inl refl, (inl refl, (inr refl, tt)))
      (omega arith)
