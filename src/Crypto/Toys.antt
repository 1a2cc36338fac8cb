-- ===== src/Crypto/Toys.antt =====
-- Small instances of the cryptographic interfaces: a checksum for a tag, a sum for an exchange.
use lowping.Base.{
  ℕ, ◌+◌, ◌%◌, ◌-◌, ◌≡◌, refl, ap, [], ◌∷◌, ◌++◌, Option, none, some, arith, length, length-append,
  take, take-append, replicate, if◌then◌else◌, get_or, ◌*◌,
}
use lowping.Base.Bytes.{Bytes}
use lowping.Base.Eq.{nat_eq, list_beq, list_beq_iff}
use native.Mathlib.Nat.{mul_comm}
use lowping.Crypto.{Aead, Ecdh, Ed25519, Base64, Hex, Suite}

abbrev sum : Bytes → ℕ
sum [] = 0
sum (b ∷ bs) = b + sum bs

-- Sixteen copies of a checksum of everything.
unfoldable pub tag : Bytes → Bytes → Bytes → Bytes → Bytes
tag key nonce msg aad = replicate 16 ((sum key + sum nonce + sum msg + sum aad) % 256)

unfoldable pub seal : Bytes → Bytes → Bytes → Bytes → Option Bytes
seal key nonce msg aad = some (msg ++ tag key nonce msg aad)

-- The split that `open_sealed` makes: all but the last 16 bytes.
unfoldable pub body : Bytes → Bytes
body ct = take (length ct - 16) ct

unfoldable pub open_sealed : Bytes → Bytes → Bytes → Bytes → Option Bytes
open_sealed key nonce ct aad =
    if list_beq (body ct ++ tag key nonce (body ct) aad) ct then some (body ct) else none

length-tag : (key nonce msg aad : Bytes) → length (tag key nonce msg aad) ≡ 16
unfolding tag
length-tag key nonce msg aad = refl

body-append-tag : (key nonce msg aad : Bytes) → body (msg ++ tag key nonce msg aad) ≡ msg
unfolding body
body-append-tag key nonce msg aad =
    take-append _ msg (tag key nonce msg aad)
      (omega (arith, length-append msg (tag key nonce msg aad), length-tag key nonce msg aad))

sealed :
    (key nonce msg aad : Bytes)
    → open_sealed key nonce (msg ++ tag key nonce msg aad) aad ≡ some msg
unfolding open_sealed
sealed key nonce msg aad =
    let whole : Bytes = msg ++ tag key nonce msg aad in
    rw (body-append-tag key nonce msg aad, (list_beq_iff whole whole).1 refl) refl

pub open_sealed-seal :
    (key nonce msg aad ct : Bytes)
    → seal key nonce msg aad ≡ some ct
    → open_sealed key nonce ct aad ≡ some msg
unfolding seal
open_sealed-seal key nonce msg aad ct h = cc (sealed key nonce msg aad)

pub seal-open_sealed :
    (key nonce msg aad ct : Bytes)
    → open_sealed key nonce ct aad ≡ some msg
    → seal key nonce msg aad ≡ some ct
unfolding seal open_sealed
seal-open_sealed key nonce msg aad ct h =
    ground (arith, list_beq_iff (body ct ++ tag key nonce (body ct) aad) ct)

pub length-seal :
    (key nonce msg aad ct : Bytes) → seal key nonce msg aad ≡ some ct → length ct ≡ length msg + 16
unfolding seal
length-seal key nonce msg aad ct h =
    ground (arith, length-append msg (tag key nonce msg aad), length-tag key nonce msg aad)

abbrev pub toy_aead : Aead
toy_aead = record {
  encrypt = seal;
  decrypt = open_sealed;
  decrypt-encrypt = open_sealed-seal;
  encrypt-decrypt = seal-open_sealed;
  length-encrypt = length-seal;
}

-- A public key repeats the sum of the secret; the exchange multiplies the sums.
abbrev toy_public : Bytes → Bytes
toy_public sk = replicate 32 (sum sk % 256)

abbrev toy_exchange : Bytes → Bytes → Bytes
toy_exchange sk pk = (sum sk % 256 * get_or pk 0 0) ∷ []

abbrev pub toy_ecdh : Ecdh
toy_ecdh = record {
  public_key = toy_public;
  diffie_hellman = toy_exchange;
  hkdf_expand = λ secret info. secret ++ info;
  diffie_hellman_comm = λ a b. ap (λ n. n ∷ []) (mul_comm (sum a % 256) (sum b % 256));
  length-public_key = λ a. refl;
}

abbrev toy_sign : Bytes → Bytes → Bytes
toy_sign sk msg = replicate 64 ((sum sk + sum msg) % 256)

abbrev pub toy_ed25519 : Ed25519
toy_ed25519 = record {
  verifying_key = λ sk. sk;
  sign = toy_sign;
  verify = λ pk msg sig. list_beq sig (toy_sign pk msg);
  verify-sign = λ sk msg. (list_beq_iff (toy_sign sk msg) (toy_sign sk msg)).1 refl;
  length-sign = λ sk msg. refl;
}

abbrev pub toy_base64 : Base64
toy_base64 = record { encode = λ bs. bs; decode = some; decode-encode = λ bs. refl }

abbrev pub toy_hex : Hex
toy_hex = record { encode = λ bs. bs; decode = some; decode-encode = λ bs. refl }

abbrev pub toy_suite : Suite
toy_suite = record {
  aead = toy_aead;
  ecdh = toy_ecdh;
  ed = toy_ed25519;
  b64 = toy_base64;
  hex = toy_hex;
}
