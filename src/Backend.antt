-- ===== src/Backend.antt =====
-- crates/gr-backend/src: the issuer of license tokens and of the signed bridge directory. JSON and
-- Base64 are the libraries' and enter as interfaces; a panic is `none`.
pub mod Setup
pub mod Routes
pub mod Issue
pub mod Directory
use lowping.Base.{
  ℕ, ◌+◌, ◌%◌, ◌^◌, ◌<◌, ◌≡◌, Bool, List, [], ◌∷◌, length, Option, none, some, Result, ok, err,
  bail_if, ok_or, ◌>>=◌, ◌>>◌, not, ◌==◌, ltb, if◌then◌else◌,
}
use lowping.Base.Bytes.{Bytes}
use lowping.Base.Int.{ℤ, pos, ◌+ℤ◌, to_u64, of_u64}
use lowping.Crypto.{Suite}
use lowping.Net.{SocketAddr}
use lowping.Protocol.License.{LicensePayload, LicenseToken, sign, to_string_b64}

-- `a + b` on `i64` in a release build, which wraps.
abbrev pub add_i64 : ℤ → ℤ → ℤ
add_i64 a b = of_u64 ((to_u64 a + to_u64 b) % 2 ^ 64)

-- `n as i64` for an `u64`.
abbrev pub as_i64 : ℕ → ℤ
as_i64 n = of_u64 n

pub record BridgeEntry : Type 0 where
  pub id : Bytes
  pub name : Bytes
  pub region : Bytes
  pub zone : Bytes
  pub endpoint : SocketAddr
  pub pubkey_hex : Bytes
  pub game_zones : List Bytes
  pub enabled : Bool

pub record BackendConfig : Type 0 where
  pub listen : SocketAddr
  pub backend_seckey_hex : Bytes
  pub bridges : List BridgeEntry
  pub token_ttl_secs : ℕ
  pub directory_ttl_secs : ℕ

pub record AppState : Type 0 where
  pub config : BackendConfig
  pub signing_key : Bytes
  pub verifying_key : Bytes
  pub next_user_id : ℕ

pub record SignupResponse : Type 0 where
  pub user_id : ℕ
  pub license_token : Bytes
  pub expires_at_unix : ℤ

-- `AppState::new`: the hex key must have 32 bytes; ids start at 1. The error says which check failed.
pub data SetupError : Type 0 where
  bad_hex : SetupError
  bad_key_length : ℕ → SetupError

unfoldable pub issue_user_id : AppState → Option (ℕ × AppState)
issue_user_id s =
    if ltb (s.next_user_id + 1) (2 ^ 32)
    then some (s.next_user_id, record s { next_user_id = s.next_user_id + 1 })
    else none

pub record BridgeDirectory : Type 0 where
  pub version : ℕ
  pub issued_at : ℤ
  pub expires_at : ℤ
  pub bridges : List BridgeEntry

pub record SignedDirectory : Type 0 where
  pub payload_b64 : Bytes
  pub signature_b64 : Bytes

pub data VerifyError : Type 0 where
  base64 : VerifyError
  bad_signature_length : ℕ → VerifyError
  bad_signature : VerifyError
  json : VerifyError

-- serde_json on a directory: what it writes it reads.
pub record Json : Type 0 where
  pub to_vec : BridgeDirectory → Option Bytes
  pub from_slice : Bytes → Option BridgeDirectory
  pub from_slice-to_vec :
      (d : BridgeDirectory) (bs : Bytes) → to_vec d ≡ some bs → from_slice bs ≡ some d

-- chrono: a time so many seconds later; `none` is its panic where a duration or a date is out of its
-- range.
pub record Chrono : Type 0 where
  pub add_seconds : ℤ → ℤ → Option ℤ
  pub add_seconds-eq-some : (t d e : ℤ) → add_seconds t d ≡ some e → e ≡ t +ℤ d

abbrev pub enabled_only : List BridgeEntry → List BridgeEntry
enabled_only [] = []
enabled_only (b ∷ bs) = if b.enabled then b ∷ enabled_only bs else enabled_only bs

module _ (crypto : Suite) where
  open crypto use {ed, b64, hex}

  unfoldable pub new_state : BackendConfig → Result SetupError AppState
  new_state config = do
    key_bytes ← ok_or (hex.decode config.backend_seckey_hex) bad_hex
    bail_if (not (length key_bytes == 32)) (bad_key_length (length key_bytes))
    ok (record {
      config = config;
      signing_key = key_bytes;
      verifying_key = ed.verifying_key key_bytes;
      next_user_id = 1;
    })

  -- `POST /v1/signup` at the time `now`.
  unfoldable pub signup : AppState → ℤ → Option (SignupResponse × AppState)
  signup s now = elim (issue_user_id s) [
    | none ↦ none
    | some (user_id, s') ↦
        let payload : LicensePayload = record {
          user_id = user_id;
          issued_at = now;
          expires_at = add_i64 now (as_i64 s.config.token_ttl_secs);
          scope = 1;
        } in
        let token = sign ed payload s.signing_key in
        some (
          record {
            user_id = user_id;
            license_token = to_string_b64 b64 token;
            expires_at_unix = payload.expires_at;
          },
          s',
        )
  ]

  unfoldable pub sign_directory : Json → BridgeDirectory → Bytes → Option SignedDirectory
  sign_directory js directory key = elim (js.to_vec directory) [
    | none ↦ none
    | some payload ↦ some (record {
      payload_b64 = b64.encode payload;
      signature_b64 = b64.encode (ed.sign key payload);
    })
  ]

  unfoldable pub verify_directory :
      Json → SignedDirectory → Bytes → Result VerifyError BridgeDirectory
  verify_directory js signed backend_pubkey = do
    payload ← ok_or (b64.decode signed.payload_b64) base64
    sig_bytes ← ok_or (b64.decode signed.signature_b64) base64
    bail_if (not (length sig_bytes == 64)) (bad_signature_length (length sig_bytes))
    bail_if (not (ed.verify backend_pubkey payload sig_bytes)) bad_signature
    ok_or (js.from_slice payload) json

  -- `GET /v1/bridges` at the time `now`: chrono may panic, and serde_json refuse.
  unfoldable pub bridges : Chrono → Json → AppState → ℤ → Option (Option SignedDirectory)
  bridges chrono js s now = elim (chrono.add_seconds now (as_i64 s.config.directory_ttl_secs)) [
    | none ↦ none
    | some expires_at ↦
        let directory : BridgeDirectory = record {
          version = 1;
          issued_at = now;
          expires_at = expires_at;
          bridges = enabled_only s.config.bridges;
        } in
        some (sign_directory js directory s.signing_key)
  ]
