-- ===== src/Protocol/Handshake/Agreement.antt =====
-- Client and bridge derive one key, so the bridge reads the client's SYN.
use lowping.Base.{◌≡◌, ap, ok, length, arith}
use lowping.Base.Bytes.{Bytes}
use lowping.Crypto.{Aead, Ecdh}
use lowping.Protocol.{Header, IsValid}
use lowping.Protocol.Frame.{encrypt_syn_frame, parse_syn_front, decrypt_syn_payload}
use lowping.Protocol.Frame.Syn.{decrypt_syn_payload-encrypt_syn_frame}
use lowping.Protocol.Handshake.{
  bridge_derive_session_key, client_derive_session_key, derive_aead_key, generate_keypair,
  pubkey_from_bytes,
}

pub pubkey_from_bytes-eq-ok : (pk : Bytes) → length pk ≡ 32 → pubkey_from_bytes pk ≡ ok pk
unfolding pubkey_from_bytes
pubkey_from_bytes-eq-ok pk h = ground arith

module _ (ecdh : Ecdh) where
  pub session_keys_agree :
      (a b : Bytes)
      → bridge_derive_session_key ecdh b (ecdh.public_key a)
        ≡ client_derive_session_key ecdh a (ecdh.public_key b)
  unfolding bridge_derive_session_key client_derive_session_key
  session_keys_agree a b = ap (derive_aead_key ecdh) (ecdh.diffie_hellman_comm b a)

  -- A client that draws the secret `a` and knows the public key of the bridge's secret `b` sends a
  -- SYN; the bridge reads from it the header and the client's key, and with the session key that it
  -- derives from that key it reads the client's payload.
  pub syn_exchange :
      (aead : Aead) (a b : Bytes) (h : Header) (payload wire : Bytes)
      → IsValid h
      → let client = generate_keypair ecdh a in
        let bridge = generate_keypair ecdh b in
        encrypt_syn_frame aead (client_derive_session_key ecdh client.0 bridge.1) h client.1 payload
          ≡ ok wire
        → let client = generate_keypair ecdh a in
          (parse_syn_front wire ≡ ok (h, client.1))
          × (pubkey_from_bytes client.1 ≡ ok client.1)
          × (decrypt_syn_payload aead (bridge_derive_session_key ecdh b client.1) wire ≡ ok payload)
  unfolding generate_keypair
  syn_exchange aead a b h payload wire v e =
      let size = ecdh.length-public_key a in
      let key = client_derive_session_key ecdh a (ecdh.public_key b) in
      let (front, opened) =
        decrypt_syn_payload-encrypt_syn_frame aead key h (ecdh.public_key a) payload wire v size
          e in
      (front, pubkey_from_bytes-eq-ok (ecdh.public_key a) size, rw (session_keys_agree a b) opened)
