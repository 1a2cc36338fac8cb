-- ===== src/Protocol/Frame/Syn.antt =====
-- SYN frames: the bridge reads back the header, the public key and the payload that a client sent,
-- and all three are authenticated.
use lowping.Base.{
  ◌+◌, ◌≤◌, ◌<◌, ◌≡◌, refl, ap, sym, ◌∙◌, ◌++◌, length, take, drop, slice, some, ok, arith,
  length-append, take-append, drop-append, take-append-drop, take-take, Result-cases, Option-cases,
  inl, inr, All-take, ltb_of_le, append-nil, append_assoc, [], take-append-take,
}
use lowping.Base.Bytes.{Bytes, IsBytes}
use lowping.Crypto.{Aead}
use lowping.Protocol.{Header, IsValid, encode, decode}
use lowping.Protocol.HeaderCodec.{length-encode, decode-encode, encode-decode}
use lowping.Protocol.Nonce.{derive_nonce}
use lowping.Protocol.Frame.{encrypt_syn_frame, parse_syn_front, decrypt_syn_payload}

-- The front of a SYN frame that was accepted.
pub parse_syn_front-eq-ok :
    (wire : Bytes) (h : Header) (pk : Bytes)
    → parse_syn_front wire ≡ ok (h, pk)
    → (61 ≤ length wire) × (decode (take 13 wire) ≡ ok h) × (pk ≡ slice 13 45 wire)
unfolding parse_syn_front
parse_syn_front-eq-ok wire h pk e = elim (Result-cases (decode (take 13 wire))) [
  | inl (g, read) ↦ ground arith
  | inr (x, failed) ↦ absurd (ground arith)
]

module _ (aead : Aead) where
  pub encrypt_syn_frame-eq-ok :
      (key : Bytes) (h : Header) (pk payload wire : Bytes)
      → encrypt_syn_frame aead key h pk payload ≡ ok wire
      → (ct : Bytes) × (length payload ≤ 1200)
        × (aead.encrypt key (derive_nonce h.connection_id h.sequence) payload (encode h ++ pk)
            ≡ some ct)
        × (wire ≡ (encode h ++ pk) ++ ct)
  unfolding encrypt_syn_frame
  encrypt_syn_frame-eq-ok key h pk payload wire e =
      elim (Option-cases
        (aead.encrypt key (derive_nonce h.connection_id h.sequence) payload (encode h ++ pk))) [
          | inl failed ↦ absurd (ground arith)
          | inr (ct, sealed) ↦ (ct, ground arith, sealed, ground arith)
        ]

  -- The cuts of a sent SYN frame.
  syn_cuts :
      (key : Bytes) (h : Header) (pk payload wire : Bytes)
      → length pk ≡ 32
      → encrypt_syn_frame aead key h pk payload ≡ ok wire
      → (length wire ≡ length payload + 61)
        × (take 13 wire ≡ encode h)
        × (slice 13 45 wire ≡ pk)
        × (take 45 wire ≡ encode h ++ pk)
        × (aead.decrypt key
              (derive_nonce h.connection_id h.sequence)
              (drop 45 wire)
              (encode h ++ pk)
            ≡ some payload)
  syn_cuts key h pk payload wire size e =
      let (ct, fits, sealed, whole) = encrypt_syn_frame-eq-ok key h pk payload wire e in
      let tagged = aead.length-encrypt key _ payload (encode h ++ pk) ct sealed in
      let front : length (encode h ++ pk) ≡ 45 =
        omega (arith, length-append (encode h) pk, length-encode h) in
      let apart : wire ≡ encode h ++ (pk ++ ct) = whole ∙ append_assoc (encode h) pk ct in
      let opened = aead.decrypt-encrypt key _ payload (encode h ++ pk) ct sealed in
      let body : drop 45 wire ≡ ct =
        ap (drop 45) whole ∙ drop-append 45 (encode h ++ pk) ct front in
      (
        omega (arith, ap length whole, length-append (encode h ++ pk) ct, tagged, front),
        ap (take 13) apart ∙ take-append 13 (encode h) (pk ++ ct) (length-encode h),
        ap (slice 13 45) apart
            ∙ ap (take 32) (drop-append 13 (encode h) (pk ++ ct) (length-encode h))
            ∙ take-append 32 pk ct size,
        ap (take 45) whole ∙ take-append 45 (encode h ++ pk) ct front,
        rw body opened,
      )

  -- The bridge reads the header and the key from the plaintext front of a SYN frame, and opens its
  -- payload under the key that sealed it.
  pub decrypt_syn_payload-encrypt_syn_frame :
      (key : Bytes) (h : Header) (pk payload wire : Bytes)
      → IsValid h
      → length pk ≡ 32
      → encrypt_syn_frame aead key h pk payload ≡ ok wire
      → (parse_syn_front wire ≡ ok (h, pk)) × (decrypt_syn_payload aead key wire ≡ ok payload)
  unfolding parse_syn_front decrypt_syn_payload
  decrypt_syn_payload-encrypt_syn_frame key h pk payload wire v size e =
      let (total, front, middle, aad, opened) = syn_cuts key h pk payload wire size e in
      let long = ltb_of_le (length wire) 61 (omega arith) in
      let read : decode (encode h) ≡ ok h = rw append-nil at (decode-encode h [] v) in
      (rw (long, front, read, middle), rw (long, front, read, aad, opened))

  decrypt_syn_payload-eq-ok :
      (key wire : Bytes) (h : Header) (payload : Bytes)
      → decode (take 13 wire) ≡ ok h
      → decrypt_syn_payload aead key wire ≡ ok payload
      → aead.decrypt key (derive_nonce h.connection_id h.sequence) (drop 45 wire) (take 45 wire)
        ≡ some payload
  unfolding decrypt_syn_payload
  decrypt_syn_payload-eq-ok key wire h payload read d = ground arith

  -- Whatever the bridge accepts as a SYN is, byte for byte, the frame that `encrypt_syn_frame` makes
  -- of the header, the public key and the payload that it read, provided the payload is not above
  -- the sender's limit: behind the header and the key stands what the AEAD makes of the payload under
  -- the header's nonce, with the header and the key as associated data.
  pub encrypt_syn_frame-decrypt_syn_payload :
      (key wire : Bytes) (h : Header) (pk payload : Bytes)
      → IsBytes wire
      → parse_syn_front wire ≡ ok (h, pk)
      → decrypt_syn_payload aead key wire ≡ ok payload
      → length payload ≤ 1200
      → IsValid h
        × (encrypt_syn_frame aead key h pk payload ≡ ok wire)
        × (take 45 wire ≡ encode h ++ pk)
        × (aead.encrypt key (derive_nonce h.connection_id h.sequence) payload (encode h ++ pk)
            ≡ some (drop 45 wire))
  unfolding encrypt_syn_frame
  encrypt_syn_frame-decrypt_syn_payload key wire h pk payload bytes e d fits =
      let (long, read, middle) = parse_syn_front-eq-ok wire h pk e in
      let (valid, front) =
        encode-decode (take 13 wire) h (All-take (λ b. b < 256) 13 wire bytes) read in
      let aad : encode h ++ pk ≡ take 45 wire =
        ap (λ r. r ++ pk) (front ∙ take-take 13 wire)
        ∙ ap (◌++◌ (take 13 wire)) middle
        ∙ take-append-take 13 32 45 wire refl in
      let opened = decrypt_syn_payload-eq-ok key wire h payload read d in
      let sealed = aead.encrypt-decrypt key _ payload (take 45 wire) (drop 45 wire) opened in
      (
        valid,
        rw (ltb_of_le 1200 (length payload) fits, aad, sealed, take-append-drop 45 wire),
        sym aad,
        rw aad sealed,
      )
