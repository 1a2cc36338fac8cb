-- ===== src/Protocol/Nonce.antt =====
-- The AEAD nonce of crates/gr-protocol/src/lib.rs, derived from the connection and the sequence.
use lowping.Base.{
  ℕ, ◌^◌, ◌<◌, ◌≡◌, sym, ap, ◌∙◌, ◌++◌, length, length-append, take-append, drop-append, take, drop,
  arith,
}
use lowping.Base.Bytes.{Bytes, to_be, length-to_be, to_be-injective}

-- The 12-byte array that starts as zeros is overwritten whole.
unfoldable pub derive_nonce : ℕ → ℕ → Bytes
derive_nonce connection_id sequence = to_be 4 connection_id ++ to_be 8 sequence

-- Two messages share a nonce only if they share the connection and the sequence number, and every
-- nonce has 12 bytes.
pub derive_nonce_injective :
    (c s d t : ℕ)
    → c < 2 ^ 32
    → s < 2 ^ 64
    → d < 2 ^ 32
    → t < 2 ^ 64
    → derive_nonce c s ≡ derive_nonce d t
    → (c ≡ d) × (s ≡ t) × (length (derive_nonce c s) ≡ 12)
unfolding derive_nonce
derive_nonce_injective c s d t hc hs hd ht e =
    let front : to_be 4 c ≡ to_be 4 d =
      sym (take-append 4 (to_be 4 c) (to_be 8 s) (length-to_be 4 c))
      ∙ ap (take 4) e
      ∙ take-append 4 (to_be 4 d) (to_be 8 t) (length-to_be 4 d) in
    let back : to_be 8 s ≡ to_be 8 t =
      sym (drop-append 4 (to_be 4 c) (to_be 8 s) (length-to_be 4 c))
      ∙ ap (drop 4) e
      ∙ drop-append 4 (to_be 4 d) (to_be 8 t) (length-to_be 4 d) in
    (
      to_be-injective 4 c d (omega arith) (omega arith) front,
      to_be-injective 8 s t (omega arith) (omega arith) back,
      omega (arith, length-append (to_be 4 c) (to_be 8 s), length-to_be 4 c, length-to_be 8 s),
    )
