-- ===== src/Protocol/License.antt =====
-- crates/gr-protocol/src/license.rs: Ed25519-signed access tokens of 88 bytes. Timestamps are signed
-- 64-bit numbers.
pub mod RoundTrip
pub mod Validity
use lowping.Base.{
  ℕ, ◌+◌, ◌^◌, ◌<◌, ◌≡◌, ◌++◌, length, take, drop, slice, ltb, ◌==◌, not, Result, ok, err, bail_if,
  ok_or, ◌>>=◌, ◌>>◌,
}
use lowping.Base.Bytes.{Bytes, IsBytes, to_be, from_be}
use lowping.Base.Int.{ℤ, to_u64, of_u64, ltb_ℤ, IsI64}
use lowping.Crypto.{Ed25519, Base64}

abbrev pub payload_len : ℕ
payload_len = 4 + 8 + 8 + 4

abbrev pub sig_len : ℕ
sig_len = 64

abbrev pub token_len : ℕ
token_len = payload_len + sig_len

pub data LicenseError : Type 0 where
  wrong_length : ℕ → LicenseError
  base64 : LicenseError
  bad_signature : LicenseError
  expired : ℤ → ℤ → LicenseError
  not_yet_valid : ℤ → ℤ → LicenseError

pub record LicensePayload : Type 0 where
  pub user_id : ℕ
  pub issued_at : ℤ
  pub expires_at : ℤ
  pub scope : ℕ

pub record LicenseToken : Type 0 where
  pub payload : LicensePayload
  pub signature : Bytes

-- Each field lies in its machine type.
pub record IsValid (p : LicensePayload) : Type 0 where
  pub user_u32 : p.user_id < 2 ^ 32
  pub issued_i64 : IsI64 p.issued_at
  pub expires_i64 : IsI64 p.expires_at
  pub scope_u32 : p.scope < 2 ^ 32

unfoldable pub encode : LicensePayload → Bytes
encode p =
    to_be 4 p.user_id
    ++ (to_be 8 (to_u64 p.issued_at) ++ (to_be 8 (to_u64 p.expires_at) ++ to_be 4 p.scope))

unfoldable pub decode : Bytes → LicensePayload
decode buf = record {
  user_id = from_be (slice 0 4 buf);
  issued_at = of_u64 (from_be (slice 4 12 buf));
  expires_at = of_u64 (from_be (slice 12 20 buf));
  scope = from_be (slice 20 24 buf);
}

-- The two arrays that `to_bytes` copies fill the 88 bytes.
unfoldable pub to_bytes : LicenseToken → Bytes
to_bytes t = encode t.payload ++ t.signature

unfoldable pub from_bytes : Bytes → Result LicenseError LicenseToken
from_bytes bytes = do
  bail_if (not (length bytes == token_len)) (wrong_length (length bytes))
  let payload = decode (take payload_len bytes)
  ok (record { payload = payload; signature = drop payload_len bytes })

module _ (ed : Ed25519) where
  unfoldable pub sign : LicensePayload → Bytes → LicenseToken
  sign payload key = record { payload = payload; signature = ed.sign key (encode payload) }

  unfoldable pub verify : LicenseToken → Bytes → ℤ → Result LicenseError (Unit {0})
  verify t backend_pubkey now = do
    bail_if (not (ed.verify backend_pubkey (encode t.payload) t.signature)) bad_signature
    bail_if (ltb_ℤ now t.payload.issued_at) (not_yet_valid t.payload.issued_at now)
    bail_if (not (ltb_ℤ now t.payload.expires_at)) (expired t.payload.expires_at now)
    ok tt

module _ (b64 : Base64) where
  unfoldable pub to_string_b64 : LicenseToken → Bytes
  to_string_b64 t = b64.encode (to_bytes t)

  unfoldable pub from_string_b64 : Bytes → Result LicenseError LicenseToken
  from_string_b64 s = do bytes ← ok_or (b64.decode s) base64; from_bytes bytes
