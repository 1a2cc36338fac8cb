-- ===== src/Protocol/Frame.antt =====
-- Data frames and SYN frames of crates/gr-protocol/src/lib.rs, over an abstract AEAD. A frame is the
-- header, for a SYN the client's public key, and what the AEAD makes of the payload with all of that
-- as its associated data.
pub mod Data
pub mod Syn
use lowping.Base.{
  ℕ, ◌≡◌, List, ◌++◌, length, take, drop, slice, ltb, Option, Result, ok, err, bail_if, ok_or,
  ◌>>=◌, ◌>>◌,
}
use lowping.Base.Bytes.{Bytes}
use lowping.Crypto.{Aead}
use lowping.Protocol.{
  Header, ProtocolError, encode, decode, truncated, payload_too_large, aead_failed, header_len,
  min_frame_len, syn_header_len, min_syn_frame_len, max_payload_len,
}
use lowping.Protocol.Nonce.{derive_nonce}

module _ (aead : Aead) where
  unfoldable pub encrypt_frame : Bytes → Header → Bytes → Result ProtocolError Bytes
  encrypt_frame key header payload = do
    bail_if (ltb max_payload_len (length payload)) (payload_too_large (length payload))
    let nonce = derive_nonce header.connection_id header.sequence
    let header_bytes = encode header
    ct ← ok_or (aead.encrypt key nonce payload header_bytes) aead_failed
    ok (header_bytes ++ ct)

  unfoldable pub decrypt_frame : Bytes → Bytes → Result ProtocolError (Header × Bytes)
  decrypt_frame key wire = do
    bail_if (ltb (length wire) min_frame_len) (truncated (length wire) min_frame_len)
    header ← decode (take header_len wire)
    let nonce = derive_nonce header.connection_id header.sequence
    pt ← ok_or (aead.decrypt key nonce (drop header_len wire) (take header_len wire)) aead_failed
    ok (header, pt)

  -- The empty branch on a missing SYN flag is the source's: it has no effect.
  unfoldable pub encrypt_syn_frame : Bytes → Header → Bytes → Bytes → Result ProtocolError Bytes
  encrypt_syn_frame key header client_pubkey payload = do
    bail_if (ltb max_payload_len (length payload)) (payload_too_large (length payload))
    let aad = encode header ++ client_pubkey
    let nonce = derive_nonce header.connection_id header.sequence
    ct ← ok_or (aead.encrypt key nonce payload aad) aead_failed
    ok (aad ++ ct)

  unfoldable pub decrypt_syn_payload : Bytes → Bytes → Result ProtocolError Bytes
  decrypt_syn_payload key wire = do
    bail_if (ltb (length wire) min_syn_frame_len) (truncated (length wire) min_syn_frame_len)
    header ← decode (take header_len wire)
    let nonce = derive_nonce header.connection_id header.sequence
    ok_or (aead.decrypt key nonce (drop syn_header_len wire) (take syn_header_len wire)) aead_failed

-- The plaintext front of a SYN frame.
unfoldable pub parse_syn_front : Bytes → Result ProtocolError (Header × Bytes)
parse_syn_front wire = do
  bail_if (ltb (length wire) min_syn_frame_len) (truncated (length wire) min_syn_frame_len)
  header ← decode (take header_len wire)
  ok (header, slice header_len syn_header_len wire)
