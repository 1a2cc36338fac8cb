-- ===== src/Protocol/Frame/Data.antt =====
-- Data frames: what is sent is received, and what is received was sent.
use lowping.Base.{
  ◌+◌, ◌≤◌, ◌<◌, ◌≡◌, refl, ap, ◌∙◌, ◌++◌, length, take, drop, some, ok, arith, length-append,
  take-append, drop-append, take-append-drop, Result-cases, Option-cases, inl, inr, All-take,
  take-take, ltb_of_le, append-nil, [],
}
use lowping.Base.Bytes.{Bytes, IsBytes}
use lowping.Crypto.{Aead}
use lowping.Protocol.{Header, IsValid, encode, decode}
use lowping.Protocol.HeaderCodec.{length-encode, decode-encode, encode-decode}
use lowping.Protocol.Nonce.{derive_nonce}
use lowping.Protocol.Frame.{encrypt_frame, decrypt_frame}

module _ (aead : Aead) where
  -- A frame that was sent: the payload fits, and the wire is the header and the ciphertext.
  pub encrypt_frame-eq-ok :
      (key : Bytes) (h : Header) (payload wire : Bytes)
      → encrypt_frame aead key h payload ≡ ok wire
      → (ct : Bytes) × (length payload ≤ 1200)
        × (aead.encrypt key (derive_nonce h.connection_id h.sequence) payload (encode h) ≡ some ct)
        × (wire ≡ encode h ++ ct)
  unfolding encrypt_frame
  encrypt_frame-eq-ok key h payload wire e =
      elim (Option-cases
        (aead.encrypt key (derive_nonce h.connection_id h.sequence) payload (encode h))) [
          | inl failed ↦ absurd (ground arith)
          | inr (ct, sealed) ↦ (ct, ground arith, sealed, ground arith)
        ]

  -- Every frame fits the 1232 bytes that an IPv6 minimum MTU leaves to UDP, and carries 29 bytes more
  -- than its payload.
  pub length-encrypt_frame :
      (key : Bytes) (h : Header) (payload wire : Bytes)
      → encrypt_frame aead key h payload ≡ ok wire
      → (length wire ≡ length payload + 29) × (length wire + 40 + 8 ≤ 1280)
  length-encrypt_frame key h payload wire e =
      let (ct, fits, sealed, front) = encrypt_frame-eq-ok key h payload wire e in
      let whole = ap length front ∙ length-append (encode h) ct in
      let tagged = aead.length-encrypt key _ payload (encode h) ct sealed in
      omega (arith, whole, tagged, length-encode h)

  decode_header : (h : Header) → IsValid h → decode (encode h) ≡ ok h
  decode_header h v = rw append-nil at (decode-encode h [] v)

  -- What `encrypt_frame` seals under a key, `decrypt_frame` opens under it, header and payload.
  pub decrypt_frame-encrypt_frame :
      (key : Bytes) (h : Header) (payload wire : Bytes)
      → IsValid h
      → encrypt_frame aead key h payload ≡ ok wire
      → decrypt_frame aead key wire ≡ ok (h, payload)
  unfolding decrypt_frame
  decrypt_frame-encrypt_frame key h payload wire v e =
      let (ct, fits, sealed, front) = encrypt_frame-eq-ok key h payload wire e in
      let (size, _) = length-encrypt_frame key h payload wire e in
      let hdr : take 13 wire ≡ encode h =
        ap (take 13) front ∙ take-append 13 (encode h) ct (length-encode h) in
      let body : drop 13 wire ≡ ct =
        ap (drop 13) front ∙ drop-append 13 (encode h) ct (length-encode h) in
      let opened = aead.decrypt-encrypt key _ payload (encode h) ct sealed in
      rw (ltb_of_le (length wire) 29 (omega arith), hdr, body, decode_header h v, opened)

  -- What stands behind the header of a sent frame is the sealed payload.
  -- An AEAD that seals every message makes a frame of every payload that fits one.
  pub encrypt_frame_total :
      ((key nonce msg aad : Bytes) → (ct : Bytes) × (aead.encrypt key nonce msg aad ≡ some ct))
      → (key : Bytes) (h : Header) (payload : Bytes) → length payload ≤ 1200
      → (wire : Bytes) × (encrypt_frame aead key h payload ≡ ok wire)
  unfolding encrypt_frame
  encrypt_frame_total seals key h payload fits =
      let (ct, sealed) = seals key (derive_nonce h.connection_id h.sequence) payload (encode h) in
      (encode h ++ ct, rw (ltb_of_le 1200 (length payload) fits, sealed) refl)

  pub sealed_body :
      (key : Bytes) (h : Header) (payload wire : Bytes)
      → encrypt_frame aead key h payload ≡ ok wire
      → aead.encrypt key (derive_nonce h.connection_id h.sequence) payload (encode h)
        ≡ some (drop 13 wire)
  sealed_body key h payload wire e =
      let (ct, fits, sealed, front) = encrypt_frame-eq-ok key h payload wire e in
      let body : drop 13 wire ≡ ct =
        ap (drop 13) front ∙ drop-append 13 (encode h) ct (length-encode h) in
      rw body sealed

  pub sealed_front :
      (key : Bytes) (h : Header) (payload wire : Bytes)
      → encrypt_frame aead key h payload ≡ ok wire
      → take 13 wire ≡ encode h
  sealed_front key h payload wire e =
      let (ct, fits, sealed, front) = encrypt_frame-eq-ok key h payload wire e in
      ap (take 13) front ∙ take-append 13 (encode h) ct (length-encode h)

  -- The header can be read before anything is decrypted.
  pub decode_frame :
      (key : Bytes) (h : Header) (payload wire : Bytes)
      → IsValid h
      → encrypt_frame aead key h payload ≡ ok wire
      → decode wire ≡ ok h
  decode_frame key h payload wire v e =
      let (ct, fits, sealed, front) = encrypt_frame-eq-ok key h payload wire e in
      ap decode front ∙ decode-encode h ct v

  -- A frame that was accepted: its header decodes, and its body opens under the header's nonce.
  pub decrypt_frame-eq-ok :
      (key wire : Bytes) (h : Header) (payload : Bytes)
      → decrypt_frame aead key wire ≡ ok (h, payload)
      → (29 ≤ length wire)
        × (decode (take 13 wire) ≡ ok h)
        × (aead.decrypt key (derive_nonce h.connection_id h.sequence) (drop 13 wire) (take 13 wire)
            ≡ some payload)
  unfolding decrypt_frame
  decrypt_frame-eq-ok key wire h payload e = elim (Result-cases (decode (take 13 wire))) [
    | inl (g, read) ↦ ground arith
    | inr (x, failed) ↦ absurd (ground arith)
  ]

  -- Whatever `decrypt_frame` accepts is, byte for byte, the frame that `encrypt_frame` makes of the
  -- header and the payload returned, provided the payload is not above the limit of the sender.
  pub encrypt_frame-decrypt_frame :
      (key wire : Bytes) (h : Header) (payload : Bytes)
      → IsBytes wire
      → decrypt_frame aead key wire ≡ ok (h, payload)
      → length payload ≤ 1200
      → IsValid h × (encrypt_frame aead key h payload ≡ ok wire)
  unfolding encrypt_frame
  encrypt_frame-decrypt_frame key wire h payload bytes e fits =
      let (long, read, opened) = decrypt_frame-eq-ok key wire h payload e in
      let (valid, front) =
        encode-decode (take 13 wire) h (All-take (λ b. b < 256) 13 wire bytes) read in
      let again : take 13 (take 13 wire) ≡ take 13 wire = take-take 13 wire in
      let sealed = aead.encrypt-decrypt key _ payload (take 13 wire) (drop 13 wire) opened in
      (
        valid,
        rw (ltb_of_le 1200 (length payload) fits, front ∙ again, sealed, take-append-drop 13 wire),
      )
