-- ===== src/Protocol/Fec/Recovery.antt =====
-- A block that lost no more shards than it has parity is read back whole.
use lowping.Base.{
  ℕ, suc, ◌+◌, ◌≤◌, ◌<◌, ◌≡◌, inl, inr, refl, ap, ◌∙◌, true, List, [], ◌∷◌, ◌++◌, map, length, take,
  drop, replicate, get_or, Option, none, some, ok, err, arith, All, Option-cases, length-append,
  length-replicate, take-append, take-append-drop, subst, length-drop, All-append, All-replicate,
}
use lowping.Base.Bytes.{Bytes}
use lowping.Protocol.Fec.{
  ReedSolomon, Coder, Damaged, present, check_sizes, new_encoder, encode, new_decoder,
  reconstruct_data, insufficient_shards,
}

-- The check passes only where all shards have one length.
check_sizes-All :
    (n : ℕ) (shards : List Bytes) → check_sizes n shards ≡ ok tt → All (λ s. length s ≡ n) shards
check_sizes-All n [] e = tt
check_sizes-All n (s ∷ ss) e = ground (arith, check_sizes-All n ss)

length-Damaged :
    (out : List Bytes) (received : List (Option Bytes))
    → Damaged out received
    → length received ≡ length out
length-Damaged [] [] d = refl
length-Damaged [] (o ∷ os) d = absurd d
length-Damaged (s ∷ ss) [] d = absurd d
length-Damaged (s ∷ ss) (o ∷ os) d = ap suc (length-Damaged ss os d.1)

All-check_sizes :
    (n : ℕ) (shards : List Bytes) → All (λ s. length s ≡ n) shards → check_sizes n shards ≡ ok tt
All-check_sizes n [] h = refl
All-check_sizes n (s ∷ ss) h = ground (arith, All-check_sizes n ss h.1)

first_size :
    (size : ℕ) (shards : List Bytes)
    → 0 < length shards
    → All (λ s. length s ≡ size) shards
    → length (get_or shards 0 []) ≡ size
first_size size [] pos h = absurd (omega arith)
first_size size (s ∷ ss) pos h = h.0

module _ (rs : ReedSolomon) where
  slots : Coder → List Bytes → List Bytes
  slots c shards = shards ++ replicate c.parity_shards (replicate (length (get_or shards 0 [])) 0)

  encoded :
      (c : Coder) (shards parity : List Bytes)
      → encode rs c shards ≡ ok parity
      → (out : List Bytes) × (length shards ≡ c.data_shards)
        × (rs.encode c.data_shards c.parity_shards (slots c shards) ≡ some out)
        × (parity ≡ drop c.data_shards out)
  unfolding encode slots
  encoded c shards parity e =
      elim (Option-cases (rs.encode c.data_shards c.parity_shards (slots c shards))) [
        | inl failed ↦ absurd (no_output failed)
        | inr (out, done) ↦ (out, ground arith, done, ground arith)
      ]
    where
      no_output : rs.encode c.data_shards c.parity_shards (slots c shards) ≡ none → ⊥
      no_output failed = ground arith

  new_encoder-eq-ok :
      (n k : ℕ) (c : Coder)
      → new_encoder rs n k ≡ ok c
      → (0 < n)
        × (0 < k)
        × (rs.accepts n k ≡ true)
        × (c ≡ record { data_shards = n; parity_shards = k })
  unfolding new_encoder
  new_encoder-eq-ok n k c made = ground arith

  length-slots :
      (c : Coder) (shards : List Bytes) → length (slots c shards) ≡ length shards + c.parity_shards
  unfolding slots
  length-slots c shards =
      let blank : Bytes = replicate (length (get_or shards 0 [])) 0 in
      omega (
        arith,
        length-append shards (replicate c.parity_shards blank),
        length-replicate c.parity_shards blank,
      )

  take-slots :
      (c : Coder) (shards : List Bytes) (n : ℕ)
      → length shards ≡ n
      → take n (slots c shards) ≡ shards
  unfolding slots
  take-slots c shards n h = take-append n shards _ h

  -- The shards of an encoded block are the data and the parity.
  block :
      (n k : ℕ) (shards parity out : List Bytes)
      → let c : Coder = record { data_shards = n; parity_shards = k } in
        length shards ≡ n
        → rs.encode n k (slots c shards) ≡ some out
        → parity ≡ drop n out
        → (length out ≡ n + k) × (take n out ≡ shards) × (shards ++ parity ≡ out)
  block n k shards parity out size done cut =
      let c : Coder = record { data_shards = n; parity_shards = k } in
      let (len, front) = rs.encode_keeps n k (slots c shards) out done in
      let kept : take n out ≡ shards = front ∙ take-slots c shards n size in
      (omega (arith, len, length-slots c shards), kept, rw (cut, ← kept) (take-append-drop n out))

  reconstruct_data_enough :
      (n k : ℕ) (received r : List (Option Bytes))
      → length received ≡ n + k
      → n ≤ present received
      → rs.reconstruct_data n k received ≡ some r
      → reconstruct_data rs (record { data_shards = n; parity_shards = k }) received ≡ ok r
  unfolding reconstruct_data
  reconstruct_data_enough n k received r h enough e = ground arith

  -- Encode a block with an encoder that was made for it, lose any shards so that as many are left as
  -- there were data shards: the decoder of the same sizes returns all the data.
  pub reconstruct_data-encode :
      (n k : ℕ) (c : Coder) (shards parity : List Bytes) (received : List (Option Bytes))
      → new_encoder rs n k ≡ ok c
      → encode rs c shards ≡ ok parity
      → Damaged (shards ++ parity) received
      → n ≤ present received
      → (new_decoder rs n k ≡ ok c)
        × (r : List (Option Bytes)) × (reconstruct_data rs c received ≡ ok r)
        × (take n r ≡ map some shards)
  unfolding new_decoder
  reconstruct_data-encode n k c shards parity received made e lost enough =
      let (_, _, fits, same) = new_encoder-eq-ok n k c made in
      let c' : Coder = record { data_shards = n; parity_shards = k } in
      let (out, size, done, cut) = encoded c' shards parity (rw same at e) in
      let (len, kept, whole) = block n k shards parity out size done cut in
      let sent = subst (λ b. Damaged b received) whole lost in
      let slots_len : length (slots c' shards) ≡ n + k = omega (arith, length-slots c' shards) in
      let (r, ran, got) =
        rs.recovers n k (slots c' shards) out received fits slots_len done sent enough in
      let all : length received ≡ n + k = length-Damaged out received sent ∙ len in
      rw (same, fits)
        (refl, r, reconstruct_data_enough n k received r all enough ran, got ∙ ap (map some) kept)

  All-slots :
      (c : Coder) (shards : List Bytes) (size : ℕ)
      → length (get_or shards 0 []) ≡ size
      → All (λ s. length s ≡ size) shards
      → All (λ s. length s ≡ size) (slots c shards)
  unfolding slots
  All-slots c shards size first same =
      All-append (λ s. length s ≡ size) shards _ same
        (All-replicate (λ s. length s ≡ size) c.parity_shards _ (rw (length-replicate, first)))

  encode_sized :
      (n k : ℕ) (shards out : List Bytes)
      → let c : Coder = record { data_shards = n; parity_shards = k } in
        length shards ≡ n
        → check_sizes (length (get_or shards 0 [])) shards ≡ ok tt
        → rs.encode n k (slots c shards) ≡ some out
        → encode rs c shards ≡ ok (drop n out)
  unfolding encode slots
  encode_sized n k shards out len passed done = ground arith

  -- With an encoder made for its size, a block of shards of one positive length is encoded, and the
  -- parity has as many shards as asked.
  pub encode_total :
      (n k size : ℕ) (c : Coder) (shards : List Bytes)
      → new_encoder rs n k ≡ ok c
      → length shards ≡ n
      → 0 < size
      → All (λ s. length s ≡ size) shards
      → (parity : List Bytes) × (encode rs c shards ≡ ok parity) × (length parity ≡ k)
  encode_total n k size c shards made len pos same =
      let (some_data, _, fits, sizes) = new_encoder-eq-ok n k c made in
      let c' : Coder = record { data_shards = n; parity_shards = k } in
      let first = first_size size shards (omega arith) same in
      let slots_len : length (slots c' shards) ≡ n + k = omega (arith, length-slots c' shards) in
      let (out, done) =
        rs.encode_total n k size (slots c' shards) fits slots_len pos
          (All-slots c' shards size first same) in
      let (len', _) = rs.encode_keeps n k (slots c' shards) out done in
      let passed : check_sizes (length (get_or shards 0 [])) shards ≡ ok tt =
        rw first (All-check_sizes size shards same) in
      rw sizes (
        drop n out,
        encode_sized n k shards out len passed done,
        omega (arith, length-drop n out, len', slots_len),
      )

  -- With fewer shards than data shards the decoder says how many it has and needs.
  pub reconstruct_data_short :
      (c : Coder) (received : List (Option Bytes))
      → length received ≡ c.data_shards + c.parity_shards
      → present received < c.data_shards
      → reconstruct_data rs c received ≡ err (insufficient_shards (present received) c.data_shards)
  unfolding reconstruct_data
  reconstruct_data_short c received h few = ground arith
