-- ===== src/Protocol.antt =====
-- crates/gr-protocol/src/lib.rs: the constants, the errors, the flags and the 13-byte header of the
-- wire protocol. Frames, SYN frames and CONNECT requests stand in the modules below, as do the other
-- files of the crate.
pub mod Flags
pub mod HeaderCodec
pub mod Nonce
pub mod Frame
pub mod Connect
pub mod Handshake
pub mod License
pub mod Fec
use Prim.Native.Nat.{bit_and, bit_or}
use lowping.Base.{
  ℕ, ◌+◌, ◌^◌, ◌<◌, ◌≡◌, Bool, List, [], ◌∷◌, ◌++◌, length, slice, get_or, ltb, ◌==◌, not, Result,
  ok, err, bail_if, ◌>>=◌, ◌>>◌,
}
use lowping.Base.Bytes.{Bytes, to_be, from_be}
use Flags

abbrev pub header_len : ℕ
header_len = 13

abbrev pub nonce_len : ℕ
nonce_len = 12

abbrev pub tag_len : ℕ
tag_len = 16

abbrev pub min_frame_len : ℕ
min_frame_len = header_len + tag_len

abbrev pub max_payload_len : ℕ
max_payload_len = 1200

abbrev pub pubkey_len : ℕ
pubkey_len = 32

abbrev pub syn_header_len : ℕ
syn_header_len = header_len + pubkey_len

abbrev pub min_syn_frame_len : ℕ
min_syn_frame_len = syn_header_len + tag_len

abbrev pub proto_version : ℕ
proto_version = 1

pub data ProtocolError : Type 0 where
  truncated : ℕ → ℕ → ProtocolError
  unknown_version : ℕ → ProtocolError
  payload_too_large : ℕ → ProtocolError
  aead_failed : ProtocolError

pub record Header : Type 0 where
  pub version : ℕ
  pub flags : ℕ
  pub connection_id : ℕ
  pub sequence : ℕ

-- A header that this version sends: the flags lie in the high nibble, the numbers in their words.
pub record IsValid (h : Header) : Type 0 where
  pub current : h.version ≡ proto_version
  pub flags_high : bit_and h.flags 0xF0 ≡ h.flags
  pub flags_byte : h.flags < 256
  pub id_u32 : h.connection_id < 2 ^ 32
  pub seq_u64 : h.sequence < 2 ^ 64

unfoldable pub encode : Header → Bytes
encode h = bit_or (bit_and h.version 0x0F) h.flags ∷ (to_be 4 h.connection_id ++ to_be 8 h.sequence)

unfoldable pub decode : Bytes → Result ProtocolError Header
decode buf = do
  bail_if (ltb (length buf) header_len) (truncated (length buf) header_len)
  let first = get_or buf 0 0
  let v = bit_and first 0x0F
  bail_if (not (v == proto_version)) (unknown_version v)
  let flags = Flags.from_bits_truncate (bit_and first 0xF0)
  let connection_id = from_be (slice 1 5 buf)
  let sequence = from_be (slice 5 13 buf)
  ok (record { version = v; flags = flags; connection_id = connection_id; sequence = sequence })
