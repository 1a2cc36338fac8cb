-- ===== src/Protocol/Handshake.antt =====
-- crates/gr-protocol/src/handshake.rs: session keys by ECDH and HKDF, over the abstract exchange.
-- `generate_keypair` takes the secret that the random generator drew.
pub mod Agreement
use Prim.Native.Char.{code}
use Prim.Native.String.{String}
use lowping.Base.{
  ℕ, ◌≡◌, List, [], ◌∷◌, length, take, Result, ok, err, bail_if, ◌>>=◌, ◌>>◌, ◌==◌, not,
}
use lowping.Base.Bytes.{Bytes}
use lowping.Crypto.{Ecdh}

pub data HandshakeError : Type 0 where
  bad_pubkey_length : ℕ → HandshakeError

abbrev codes : String → Bytes
codes String.[] = []
codes (String.◌∷◌ c s) = code c ∷ codes s

abbrev pub hkdf_info : Bytes
hkdf_info = codes "lowping-v1-aead"

-- The copy into a 32-byte array is the whole slice, once its length is checked.
unfoldable pub pubkey_from_bytes : Bytes → Result HandshakeError Bytes
pubkey_from_bytes bytes = do
  bail_if (not (length bytes == 32)) (bad_pubkey_length (length bytes))
  ok bytes

unfoldable pub secret_from_bytes : Bytes → Result HandshakeError Bytes
secret_from_bytes bytes = do
  bail_if (not (length bytes == 32)) (bad_pubkey_length (length bytes))
  ok bytes

module _ (ecdh : Ecdh) where
  unfoldable pub derive_aead_key : Bytes → Bytes
  derive_aead_key shared_secret = ecdh.hkdf_expand shared_secret hkdf_info

  unfoldable pub bridge_derive_session_key : Bytes → Bytes → Bytes
  bridge_derive_session_key bridge_secret client_ephemeral_pub =
      derive_aead_key (ecdh.diffie_hellman bridge_secret client_ephemeral_pub)

  unfoldable pub client_derive_session_key : Bytes → Bytes → Bytes
  client_derive_session_key client_ephemeral_secret bridge_pub =
      derive_aead_key (ecdh.diffie_hellman client_ephemeral_secret bridge_pub)

  unfoldable pub generate_keypair : Bytes → Bytes × Bytes
  generate_keypair secret = (secret, ecdh.public_key secret)
