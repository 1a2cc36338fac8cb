-- ===== src/Protocol/HeaderCodec.antt =====
-- The header's encoding and decoding are inverse to one another, and the branches of `decode`.
use Prim.Native.Nat.{bit_and, bit_or}
use lowping.Base.{
  ℕ, ◌+◌, ◌%◌, ◌/◌, ◌*◌, ◌<◌, ◌≤◌, ◌≡◌, refl, sym, ap, ◌∙◌, [], ◌∷◌, ◌++◌, length, slice, take,
  drop, get_or, ok, err, arith, length-append, length-take, length-drop, All-take, All-drop,
  take-append-take, ◌≢◌, ◌⊎◌, inl, inr,
}
use native.Mathlib.Decide.{dec_lt, ℕ_discrete}
use lowping.Base.Bytes.{
  Bytes, IsBytes, to_be, from_be, length-to_be, from_be-to_be, from_be-lt_at, to_be-from_be_at,
}
use lowping.Base.Bits.{low_nibble, high_nibble, join_nibbles}
use lowping.Protocol.{
  Header, IsValid, encode, decode, truncated, unknown_version, header_len, proto_version,
}

pub length-encode : (h : Header) → length (encode h) ≡ 13
unfolding encode
length-encode h = omega (
  arith,
  length-append (to_be 4 h.connection_id) (to_be 8 h.sequence),
  length-to_be 4 h.connection_id,
  length-to_be 8 h.sequence,
)

-- The first byte of a valid header, and what its two nibbles are.
first_byte :
    (f : ℕ)
    → f < 256
    → bit_and f 0xF0 ≡ f
    → (bit_or (bit_and proto_version 0x0F) f ≡ f + 1)
      × (bit_and (f + 1) 0x0F ≡ 1)
      × (bit_and (bit_and (f + 1) 0xF0) 0xF0 ≡ f)
first_byte f byte high =
    let multiple : f / 16 * 16 ≡ f = sym (high_nibble f byte) ∙ high in
    let below : f + 1 < 256 = omega (arith, multiple) in
    let low : (f + 1) % 16 ≡ 1 = omega (arith, multiple) in
    let top : (f + 1) / 16 * 16 ≡ f = omega (arith, multiple) in
    let joined : bit_or 1 f ≡ f + 1 = rw (low, top) at (join_nibbles (f + 1) below) in
    (joined, low_nibble (f + 1) below ∙ low, rw (high_nibble (f + 1) below, top) high)

-- Decoding what was encoded gives the header back, whatever follows it.
pub decode-encode : (h : Header) (rest : Bytes) → IsValid h → decode (encode h ++ rest) ≡ ok h
unfolding decode encode to_be
decode-encode h rest v =
    let (joined, low, high) = first_byte h.flags v.flags_byte v.flags_high in
    let id = from_be-to_be 4 h.connection_id (omega arith) in
    let seq = from_be-to_be 8 h.sequence (omega arith) in
    rw (v.current, joined, low, high, id, seq) (ground arith)

-- What an accepted buffer is: long enough, of this version, and read field by field.
pub decode-eq-ok :
    (buf : Bytes) (h : Header)
    → decode buf ≡ ok h
    → (header_len ≤ length buf)
      × (bit_and (get_or buf 0 0) 0x0F ≡ 1)
      × (h ≡ record {
        version = 1;
        flags = bit_and (bit_and (get_or buf 0 0) 0xF0) 0xF0;
        connection_id = from_be (slice 1 5 buf);
        sequence = from_be (slice 5 13 buf);
      })
unfolding decode
decode-eq-ok buf h e = ground arith

-- A first byte with the current version: its flags, and the byte made of both again.
accepted_byte :
    (b : ℕ)
    → b < 256
    → bit_and b 0x0F ≡ 1
    → let f = bit_and (bit_and b 0xF0) 0xF0 in
      (f < 256) × (bit_and f 0xF0 ≡ f) × (bit_or (bit_and 1 0x0F) f ≡ b)
accepted_byte b byte v =
    let low : b % 16 ≡ 1 = sym (low_nibble b byte) ∙ v in
    let top : b / 16 * 16 < 256 = omega arith in
    let again : b / 16 * 16 / 16 * 16 ≡ b / 16 * 16 = omega arith in
    let flags : bit_and (bit_and b 0xF0) 0xF0 ≡ b / 16 * 16 =
      rw (high_nibble b byte, high_nibble (b / 16 * 16) top, again) in
    rw flags (top, rw (high_nibble (b / 16 * 16) top) again, rw (← low) (join_nibbles b byte))

-- The fields of an accepted buffer make a valid header, whose encoding is the buffer's front.
pub encode-decode :
    (buf : Bytes) (h : Header)
    → IsBytes buf
    → decode buf ≡ ok h
    → IsValid h × (encode h ≡ take 13 buf)
unfolding encode
encode-decode [] h bytes e = absurd (omega (arith, (decode-eq-ok [] h e).0))
encode-decode (b ∷ bs) h bytes e =
    let (long, v, fields) = decode-eq-ok (b ∷ bs) h e in
    let (byte, high, joined) = accepted_byte b bytes.0 v in
    let id_bytes = All-take (λ c. c < 256) 4 bs bytes.1 in
    let seq_bytes = All-take (λ c. c < 256) 8 (drop 4 bs) (All-drop (λ c. c < 256) 4 bs bytes.1) in
    let id_len : length (take 4 bs) ≡ 4 = omega (arith, length-take 4 bs) in
    let seq_len : length (take 8 (drop 4 bs)) ≡ 8 =
      omega (arith, length-take 8 (drop 4 bs), length-drop 4 bs) in
    rw fields (
      record {
        current = refl;
        flags_high = high;
        flags_byte = byte;
        id_u32 = from_be-lt_at 4 (take 4 bs) id_len id_bytes;
        seq_u64 = from_be-lt_at 8 (take 8 (drop 4 bs)) seq_len seq_bytes;
      },
      rw
          (
            joined,
            to_be-from_be_at 4 (take 4 bs) id_len id_bytes,
            to_be-from_be_at 8 (take 8 (drop 4 bs)) seq_len seq_bytes,
          )
          (ap (λ r. b ∷ r) (take-append-take 4 8 12 bs refl)),
    )

decode_fresh :
    (buf : Bytes)
    → ((length buf < 13) × (decode buf ≡ err (truncated (length buf) 13)))
      ⊎ ((13 ≤ length buf)
          × (bit_and (get_or buf 0 0) 0x0F ≢ 1)
          × (decode buf ≡ err (unknown_version (bit_and (get_or buf 0 0) 0x0F))))
      ⊎ ((h : Header) × (decode buf ≡ ok h))
unfolding decode
decode_fresh buf = elim (dec_lt (length buf) 13) [
  | yes short ↦ inl (short, ground arith)
  | no long ↦ elim (ℕ_discrete (bit_and (get_or buf 0 0) 0x0F) 1) [
    | yes current ↦ inr (
        inr (
          record {
            version = bit_and (get_or buf 0 0) 0x0F;
            flags = bit_and (bit_and (get_or buf 0 0) 0xF0) 0xF0;
            connection_id = from_be (slice 1 5 buf);
            sequence = from_be (slice 5 13 buf);
          },
          ground arith,
        ))
    | no other ↦ inr (inl (omega arith, other, ground arith))
  ]
]

-- On every byte string `decode` does one of three things: it reports a short buffer with its length,
-- it reports the low nibble of the first byte where that is not the current version, or it accepts a
-- valid header whose encoding is the first 13 bytes.
pub decode_total :
    (buf : Bytes)
    → IsBytes buf
    → ((length buf < 13) × (decode buf ≡ err (truncated (length buf) 13)))
      ⊎ ((13 ≤ length buf)
          × (bit_and (get_or buf 0 0) 0x0F ≢ 1)
          × (decode buf ≡ err (unknown_version (bit_and (get_or buf 0 0) 0x0F))))
      ⊎ ((h : Header) × (decode buf ≡ ok h) × IsValid h × (encode h ≡ take 13 buf))
decode_total buf bytes = elim (decode_fresh buf) [
  | inl short ↦ inl short
  | inr (inl other) ↦ inr (inl other)
  | inr (inr (h, e)) ↦
      let (valid, front) = encode-decode buf h bytes e in inr (inr (h, e, valid, front))
]
