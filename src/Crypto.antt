-- ===== src/Crypto.antt =====
-- What the program takes from cryptographic crates, as interfaces: operations with their documented
-- laws. Keys, nonces and messages are byte strings. Nothing of these crates is modelled further.
-- `Toys` has small instances of them all.
pub mod Toys
use lowping.Base.{ℕ, ◌+◌, ◌≡◌, Bool, true, List, Option, some, length}
use lowping.Base.Bytes.{Bytes, IsBytes}

-- chacha20poly1305, with the nonce, the message and the associated data in this order.
pub record Aead : Type 0 where
  pub encrypt : Bytes → Bytes → Bytes → Bytes → Option Bytes
  pub decrypt : Bytes → Bytes → Bytes → Bytes → Option Bytes
  -- What was sealed opens again.
  pub decrypt-encrypt :
      (key nonce msg aad ct : Bytes)
      → encrypt key nonce msg aad ≡ some ct
      → decrypt key nonce ct aad ≡ some msg
  -- The tag of what opens is the one that sealing computes, and the cipher is a bijection.
  pub encrypt-decrypt :
      (key nonce msg aad ct : Bytes)
      → decrypt key nonce ct aad ≡ some msg
      → encrypt key nonce msg aad ≡ some ct
  -- The ciphertext is the message's length and a tag of 16 bytes.
  pub length-encrypt :
      (key nonce msg aad ct : Bytes)
      → encrypt key nonce msg aad ≡ some ct
      → length ct ≡ length msg + 16

-- x25519-dalek and hkdf: the exchange commutes, and keys have 32 bytes.
pub record Ecdh : Type 0 where
  pub public_key : Bytes → Bytes
  pub diffie_hellman : Bytes → Bytes → Bytes
  pub hkdf_expand : Bytes → Bytes → Bytes
  pub diffie_hellman_comm :
      (a b : Bytes) → diffie_hellman a (public_key b) ≡ diffie_hellman b (public_key a)
  pub length-public_key : (a : Bytes) → length (public_key a) ≡ 32

-- ed25519-dalek: a signature of 64 bytes that the matching public key accepts.
pub record Ed25519 : Type 0 where
  pub verifying_key : Bytes → Bytes
  pub sign : Bytes → Bytes → Bytes
  pub verify : Bytes → Bytes → Bytes → Bool
  pub verify-sign : (sk msg : Bytes) → verify (verifying_key sk) msg (sign sk msg) ≡ true
  pub length-sign : (sk msg : Bytes) → length (sign sk msg) ≡ 64

-- base64's URL_SAFE_NO_PAD engine, over the bytes of the text.
pub record Base64 : Type 0 where
  pub encode : Bytes → Bytes
  pub decode : Bytes → Option Bytes
  pub decode-encode : (bs : Bytes) → decode (encode bs) ≡ some bs

-- the hex crate, over the bytes of the text.
pub record Hex : Type 0 where
  pub encode : Bytes → Bytes
  pub decode : Bytes → Option Bytes
  pub decode-encode : (bs : Bytes) → decode (encode bs) ≡ some bs

-- All of them, where a component needs several.
pub record Suite : Type 0 where
  pub aead : Aead
  pub ecdh : Ecdh
  pub ed : Ed25519
  pub b64 : Base64
  pub hex : Hex
