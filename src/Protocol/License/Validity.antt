-- ===== src/Protocol/License/Validity.antt =====
-- When a token is accepted, and what is said where it is not.
use lowping.Base.{◌≡◌, ◌⊎◌, true, false, ok, err, arith}
use lowping.Base.Bytes.{Bytes}
use lowping.Base.Int.{ℤ, ◌≤ℤ◌, ◌<ℤ◌}
use lowping.Crypto.{Ed25519}
use lowping.Protocol.License.{
  LicensePayload, LicenseToken, encode, sign, verify, bad_signature, expired, not_yet_valid,
}

module _ (ed : Ed25519) where
  -- `verify` answers in one of four ways, in this order: a signature that the backend's key rejects,
  -- a time before issue, a time at or after expiry, and acceptance, which is exactly a good signature
  -- with `issued_at <= now < expires_at`.
  pub verify_total :
      (t : LicenseToken) (pk : Bytes) (now : ℤ)
      → ((ed.verify pk (encode t.payload) t.signature ≡ false)
          × (verify ed t pk now ≡ err bad_signature))
        ⊎ ((ed.verify pk (encode t.payload) t.signature ≡ true)
            × (now <ℤ t.payload.issued_at)
            × (verify ed t pk now ≡ err (not_yet_valid t.payload.issued_at now)))
        ⊎ ((ed.verify pk (encode t.payload) t.signature ≡ true)
            × (t.payload.issued_at ≤ℤ now)
            × (t.payload.expires_at ≤ℤ now)
            × (verify ed t pk now ≡ err (expired t.payload.expires_at now)))
        ⊎ ((ed.verify pk (encode t.payload) t.signature ≡ true)
            × (t.payload.issued_at ≤ℤ now)
            × (now <ℤ t.payload.expires_at)
            × (verify ed t pk now ≡ ok tt))
  unfolding verify
  verify_total t pk now = ground arith

  pub verify-eq-ok :
      (t : LicenseToken) (pk : Bytes) (now : ℤ)
      → verify ed t pk now ≡ ok tt
      → (ed.verify pk (encode t.payload) t.signature ≡ true)
        × (t.payload.issued_at ≤ℤ now)
        × (now <ℤ t.payload.expires_at)
  verify-eq-ok t pk now e = ground (arith, verify_total t pk now)

  -- A token that the backend signed is accepted in its window, under the backend's public key.
  pub verify-sign :
      (p : LicensePayload) (sk : Bytes) (now : ℤ)
      → p.issued_at ≤ℤ now
      → now <ℤ p.expires_at
      → verify ed (sign ed p sk) (ed.verifying_key sk) now ≡ ok tt
  unfolding verify sign
  verify-sign p sk now lo hi = ground (arith, ed.verify-sign sk (encode p))

  pub verify_complete :
      (t : LicenseToken) (pk : Bytes) (now : ℤ)
      → ed.verify pk (encode t.payload) t.signature ≡ true
      → t.payload.issued_at ≤ℤ now
      → now <ℤ t.payload.expires_at
      → verify ed t pk now ≡ ok tt
  verify_complete t pk now signed lo hi = ground (arith, verify_total t pk now)
