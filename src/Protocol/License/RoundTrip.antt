-- ===== src/Protocol/License/RoundTrip.antt =====
-- Tokens survive their binary and their textual form.
use lowping.Base.{
  ℕ, ◌+◌, ◌^◌, ◌<◌, ◌≤◌, take-append-drop_at, take_of_length-le, ◌≡◌, refl, ◌++◌, length, take,
  drop, ok, arith, length-append, take-append, drop-append, take-append-drop, length-take,
  length-drop, All-take, All-drop,
}
use lowping.Base.Bytes.{
  Bytes, IsBytes, to_be, from_be, from_be-to_be, from_be-lt_at, to_be-from_be_at,
}
use lowping.Base.Int.{
  ℤ, to_u64, of_u64, IsI64, of_u64-to_u64, to_u64-of_u64, to_u64-lt, of_u64-IsI64,
}
use lowping.Crypto.{Base64}
use lowping.Protocol.License.{
  LicensePayload, LicenseToken, IsValid, encode, decode, to_bytes, from_bytes, to_string_b64,
  from_string_b64,
}

pub length-encode : (p : LicensePayload) → length (encode p) ≡ 24
unfolding encode to_be
length-encode p = refl

i64_back : (a : ℤ) → IsI64 a → of_u64 (from_be (to_be 8 (to_u64 a))) ≡ a
i64_back a h = rw (from_be-to_be 8 (to_u64 a) (omega (arith, to_u64-lt a h))) (of_u64-to_u64 a h)

-- The four fields come back, with anything behind them.
pub decode-encode : (p : LicensePayload) → IsValid p → decode (encode p) ≡ p
unfolding decode encode to_be
decode-encode p v = rw (
  from_be-to_be 4 p.user_id (omega arith),
  i64_back p.issued_at v.issued_i64,
  i64_back p.expires_at v.expires_i64,
  from_be-to_be 4 p.scope (omega arith),
)

-- The 88 bytes of a token decode to it.
pub from_bytes-to_bytes :
    (t : LicenseToken)
    → IsValid t.payload
    → length t.signature ≡ 64
    → (length (to_bytes t) ≡ 88) × (from_bytes (to_bytes t) ≡ ok t)
unfolding from_bytes to_bytes
from_bytes-to_bytes t v h =
    let size : length (encode t.payload ++ t.signature) ≡ 88 =
      omega (arith, length-append (encode t.payload) t.signature, length-encode t.payload) in
    (
      size,
      rw (
        size,
        take-append 24 (encode t.payload) t.signature (length-encode t.payload),
        drop-append 24 (encode t.payload) t.signature (length-encode t.payload),
        decode-encode t.payload v,
      ),
    )

-- A token's text decodes to the token.
pub from_string_b64-to_string_b64 :
    (b64 : Base64) (t : LicenseToken)
    → IsValid t.payload
    → length t.signature ≡ 64
    → from_string_b64 b64 (to_string_b64 b64 t) ≡ ok t
unfolding from_string_b64 to_string_b64
from_string_b64-to_string_b64 b64 t v h =
    rw (b64.decode-encode (to_bytes t)) (from_bytes-to_bytes t v h).1

-- One field of a byte string, cut out and written back.
field :
    (lo n : ℕ) (buf : Bytes)
    → IsBytes buf
    → lo + n ≤ length buf
    → (to_be n (from_be (take n (drop lo buf))) ≡ take n (drop lo buf))
      × (from_be (take n (drop lo buf)) < 256 ^ n)
field lo n buf h fits =
    let part = All-take (λ b. b < 256) n (drop lo buf) (All-drop (λ b. b < 256) lo buf h) in
    let size : length (take n (drop lo buf)) ≡ n =
      omega (arith, length-take n (drop lo buf), length-drop lo buf) in
    (to_be-from_be_at n _ size part, from_be-lt_at n _ size part)

four_parts :
    (buf : Bytes)
    → length buf ≡ 24
    → take 4 buf ++ (take 8 (drop 4 buf) ++ (take 8 (drop 12 buf) ++ take 4 (drop 20 buf))) ≡ buf
four_parts buf h =
    rw
      (
        take_of_length-le 4 (drop 20 buf) (omega (arith, length-drop 20 buf)),
        take-append-drop_at 12 8 20 buf refl,
        take-append-drop_at 4 8 12 buf refl,
      )
      (take-append-drop 4 buf)

encode-decode :
    (buf : Bytes)
    → IsBytes buf
    → length buf ≡ 24
    → IsValid (decode buf) × (encode (decode buf) ≡ buf)
unfolding encode decode
encode-decode buf h size =
    let (user, user_lt) = field 0 4 buf h (omega arith) in
    let (issued, issued_lt) = field 4 8 buf h (omega arith) in
    let (expires, expires_lt) = field 12 8 buf h (omega arith) in
    let (scope, scope_lt) = field 20 4 buf h (omega arith) in
    let issued_back = to_u64-of_u64 (from_be (take 8 (drop 4 buf))) (omega arith) in
    let expires_back = to_u64-of_u64 (from_be (take 8 (drop 12 buf))) (omega arith) in
    (
      record {
        user_u32 = omega arith;
        issued_i64 = of_u64-IsI64 _ (omega arith);
        expires_i64 = of_u64-IsI64 _ (omega arith);
        scope_u32 = omega arith;
      },
      rw (user, issued_back, issued, expires_back, expires, scope) (four_parts buf size),
    )

-- Every accepted byte string is the encoding of the token read from it, which is in range.
pub to_bytes-from_bytes :
    (bytes : Bytes) (t : LicenseToken)
    → IsBytes bytes
    → from_bytes bytes ≡ ok t
    → IsValid t.payload × (length t.signature ≡ 64) × (to_bytes t ≡ bytes)
unfolding from_bytes to_bytes
to_bytes-from_bytes bytes t h e =
    let size : length bytes ≡ 88 = ground arith in
    let same : t ≡ record { payload = decode (take 24 bytes); signature = drop 24 bytes } =
      ground arith in
    let front : length (take 24 bytes) ≡ 24 = omega (arith, length-take 24 bytes) in
    let (valid, again) = encode-decode (take 24 bytes) (All-take (λ b. b < 256) 24 bytes h) front in
    rw same (valid, omega (arith, length-drop 24 bytes), rw again (take-append-drop 24 bytes))
