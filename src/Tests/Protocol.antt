-- ===== src/Tests/Protocol.antt =====
-- Frames, requests and tokens, once each.
use Prim.Native.Nat.{bit_and}
use lowping.Base.{
  ◌≤◌, ◌<◌, ◌≡◌, ◌≢◌, ◌⊎◌, refl, true, false, [], ◌∷◌, ◌++◌, some, ok, err, arith, length, take,
  drop, get_or, replicate,
}
use lowping.Base.Bytes.{Bytes, IsBytes, to_be, from_be}
use lowping.Base.Int.{pos, to_u64, of_u64, ◌≤ℤ◌, ◌<ℤ◌}
use lowping.Crypto.Toys.{toy_aead, toy_ecdh, toy_ed25519, seal, tag, open_sealed, body}
use lowping.Protocol
use lowping.Protocol.{Header, truncated, unknown_version}
use lowping.Protocol.HeaderCodec.{decode_total}
use lowping.Protocol.Nonce.{derive_nonce}
use lowping.Protocol.Connect
use lowping.Protocol.Frame.{
  encrypt_frame, decrypt_frame, encrypt_syn_frame, parse_syn_front, decrypt_syn_payload,
}
use lowping.Protocol.Frame.Data.{encrypt_frame-decrypt_frame}
use lowping.Protocol.Frame.Syn.{encrypt_syn_frame-decrypt_syn_payload}
use lowping.Protocol.Handshake.{client_derive_session_key, derive_aead_key}
use lowping.Protocol.License
use lowping.Protocol.License.{
  LicenseToken, verify, from_bytes, to_bytes, bad_signature, expired, not_yet_valid,
}
use lowping.Protocol.License.Validity.{verify_total}
use lowping.Tests.World.{from_ok, payload, token}

abbrev key : Bytes
key = 5 ∷ []

abbrev header : Header
header = record { version = 1; flags = 0; connection_id = 77; sequence = 10 }

header-IsValid : Protocol.IsValid header
header-IsValid = record {
  current = refl;
  flags_high = refl;
  flags_byte = omega arith;
  id_u32 = omega arith;
  seq_u64 = omega arith;
}

abbrev wire : Bytes
wire = from_ok [] (encrypt_frame toy_aead key header payload)

seals : encrypt_frame toy_aead key header payload ≡ ok wire
unfolding encrypt_frame decrypt_frame encrypt_syn_frame Protocol.encode Protocol.decode
    Connect.encode derive_nonce to_be from_be to_u64 of_u64 seal tag open_sealed body
seals = refl

wire-IsBytes : IsBytes wire
unfolding encrypt_frame decrypt_frame encrypt_syn_frame Protocol.encode Protocol.decode
    Connect.encode derive_nonce to_be from_be to_u64 of_u64 seal tag open_sealed body
wire-IsBytes = ground arith

unseals : decrypt_frame toy_aead key wire ≡ ok (header, payload)
unfolding encrypt_frame decrypt_frame encrypt_syn_frame Protocol.encode Protocol.decode
    Connect.encode derive_nonce to_be from_be to_u64 of_u64 seal tag open_sealed body
unseals = refl

encrypt_frame-decrypt_frame_example :
    Protocol.IsValid header × (encrypt_frame toy_aead key header payload ≡ ok wire)
encrypt_frame-decrypt_frame_example =
    encrypt_frame-decrypt_frame toy_aead key wire header payload wire-IsBytes unseals (omega arith)

decode_total_example :
    ((length wire < 13) × (Protocol.decode wire ≡ err (truncated (length wire) 13)))
    ⊎ ((13 ≤ length wire)
        × (bit_and (get_or wire 0 0) 0x0F ≢ 1)
        × (Protocol.decode wire ≡ err (unknown_version (bit_and (get_or wire 0 0) 0x0F))))
    ⊎ ((h : Header) × (Protocol.decode wire ≡ ok h)
        × Protocol.IsValid h
        × (Protocol.encode h ≡ take 13 wire))
decode_total_example = decode_total wire wire-IsBytes

-- A client with the secret 3 and a bridge with the secret 9.
abbrev syn_header : Header
syn_header = record { version = 1; flags = 0x20; connection_id = 77; sequence = 0 }

syn-IsValid : Protocol.IsValid syn_header
syn-IsValid = record {
  current = refl;
  flags_high = refl;
  flags_byte = omega arith;
  id_u32 = omega arith;
  seq_u64 = omega arith;
}

abbrev session_key : Bytes
session_key = client_derive_session_key toy_ecdh (3 ∷ []) (replicate 32 9)

abbrev syn_wire : Bytes
syn_wire = from_ok [] (encrypt_syn_frame toy_aead session_key syn_header (replicate 32 3) payload)

seals_syn : encrypt_syn_frame toy_aead session_key syn_header (replicate 32 3) payload ≡ ok syn_wire
unfolding client_derive_session_key derive_aead_key encrypt_frame decrypt_frame encrypt_syn_frame
    Protocol.encode Protocol.decode Connect.encode derive_nonce to_be from_be to_u64 of_u64 seal tag
    open_sealed body
seals_syn = refl

syn-IsBytes : IsBytes syn_wire
unfolding client_derive_session_key derive_aead_key encrypt_frame decrypt_frame encrypt_syn_frame
    Protocol.encode Protocol.decode Connect.encode derive_nonce to_be from_be to_u64 of_u64 seal tag
    open_sealed body
syn-IsBytes = ground arith

front : parse_syn_front syn_wire ≡ ok (syn_header, replicate 32 3)
unfolding parse_syn_front client_derive_session_key derive_aead_key encrypt_frame decrypt_frame
    encrypt_syn_frame Protocol.encode Protocol.decode Connect.encode derive_nonce to_be from_be
    to_u64 of_u64 seal tag open_sealed body
front = refl

opens : decrypt_syn_payload toy_aead session_key syn_wire ≡ ok payload
unfolding decrypt_syn_payload client_derive_session_key derive_aead_key encrypt_frame decrypt_frame
    encrypt_syn_frame Protocol.encode Protocol.decode Connect.encode derive_nonce to_be from_be
    to_u64 of_u64 seal tag open_sealed body
opens = refl

encrypt_syn_frame-decrypt_syn_payload_example :
    Protocol.IsValid syn_header
    × (encrypt_syn_frame toy_aead session_key syn_header (replicate 32 3) payload ≡ ok syn_wire)
    × (take 45 syn_wire ≡ Protocol.encode syn_header ++ replicate 32 3)
    × (toy_aead.encrypt session_key
          (derive_nonce syn_header.connection_id syn_header.sequence)
          payload
          (Protocol.encode syn_header ++ replicate 32 3)
        ≡ some (drop 45 syn_wire))
encrypt_syn_frame-decrypt_syn_payload_example =
    encrypt_syn_frame-decrypt_syn_payload toy_aead session_key syn_wire syn_header (replicate 32 3)
      payload syn-IsBytes front opens (omega arith)

verify_total_example :
    ((toy_ed25519.verify (7 ∷ []) (License.encode token.payload) token.signature ≡ false)
      × (verify toy_ed25519 token (7 ∷ []) (pos 2000) ≡ err bad_signature))
    ⊎ ((toy_ed25519.verify (7 ∷ []) (License.encode token.payload) token.signature ≡ true)
        × (pos 2000 <ℤ token.payload.issued_at)
        × (verify toy_ed25519 token (7 ∷ []) (pos 2000)
            ≡ err (not_yet_valid token.payload.issued_at (pos 2000))))
    ⊎ ((toy_ed25519.verify (7 ∷ []) (License.encode token.payload) token.signature ≡ true)
        × (token.payload.issued_at ≤ℤ pos 2000)
        × (token.payload.expires_at ≤ℤ pos 2000)
        × (verify toy_ed25519 token (7 ∷ []) (pos 2000)
            ≡ err (expired token.payload.expires_at (pos 2000))))
    ⊎ ((toy_ed25519.verify (7 ∷ []) (License.encode token.payload) token.signature ≡ true)
        × (token.payload.issued_at ≤ℤ pos 2000)
        × (pos 2000 <ℤ token.payload.expires_at)
        × (verify toy_ed25519 token (7 ∷ []) (pos 2000) ≡ ok tt))
verify_total_example = verify_total toy_ed25519 token (7 ∷ []) (pos 2000)
