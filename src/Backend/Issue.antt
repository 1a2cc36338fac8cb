-- ===== src/Backend/Issue.antt =====
-- User ids are never given twice, and a token that is handed out is good for its time to live.
use lowping.Base.{
  ℕ, zero, suc, ◌+◌, ◌^◌, ◌≤◌, ◌<◌, ◌≡◌, refl, List, [], ◌∷◌, Option, none, some, ok, arith, length,
}
use lowping.Base.Int.{pos, to_u64, of_u64}
use lowping.Crypto.{Suite}
use lowping.Protocol.License.{
  LicensePayload, LicenseToken, IsValid, verify, sign, from_string_b64, to_string_b64,
}
use lowping.Protocol.License.RoundTrip.{from_string_b64-to_string_b64}
use lowping.Protocol.License.Validity.{verify-sign}
use lowping.Backend.{AppState, SignupResponse, add_i64, as_i64, issue_user_id, signup}

-- The ids that `n` calls in a row give out; `none` is the overflow panic.
unfoldable pub issue_ids : ℕ → AppState → Option (List ℕ × AppState)
issue_ids zero s = some ([], s)
issue_ids (suc n) s = elim (issue_user_id s) [
  | none ↦ none
  | some (id, s') ↦ elim (issue_ids n s') [ none ↦ none | some (ids, s'') ↦ some (id ∷ ids, s'') ]
]

-- Consecutive numbers from `k` on.
abbrev pub Consecutive : ℕ → List ℕ → Type 0
Consecutive k [] = Unit {0}
Consecutive k (id ∷ ids) = (id ≡ k) × Consecutive (k + 1) ids

-- Successive calls give out consecutive ids, one for each call, from the counter on, so never one
-- twice; and they do so as long as the counter stays below the largest `u32`, where the call panics.
pub issue_ids-Consecutive :
    (n : ℕ) (s : AppState)
    → s.next_user_id + n < 2 ^ 32
    → (ids : List ℕ) × (issue_ids n s ≡ some (ids, record s { next_user_id = s.next_user_id + n }))
      × Consecutive s.next_user_id ids
      × (length ids ≡ n)
unfolding issue_ids issue_user_id
issue_ids-Consecutive zero s h = ([], ground arith, tt, refl)
issue_ids-Consecutive (suc n) s h =
    let s' : AppState = record s { next_user_id = s.next_user_id + 1 } in
    let (ids, ran, run_on, count) = issue_ids-Consecutive n s' (omega arith) in
    (s.next_user_id ∷ ids, ground arith, (refl, run_on), omega arith)

-- Where the sum of two times stays in range it is the sum.
add_i64-pos : (a b : ℕ) → a + b < 2 ^ 63 → add_i64 (pos a) (as_i64 b) ≡ pos (a + b)
unfolding to_u64 of_u64
add_i64-pos a b h = ground arith

module _ (crypto : Suite) where
  -- A signup at the time `t` gives a token that decodes, names the fresh user and has scope bit 0; any
  -- verifier with the backend's key accepts it at every time from `t` to the end of its time to
  -- live, exclusive.
  pub signup_verifies :
      (s : AppState) (t now : ℕ)
      → s.next_user_id + 1 < 2 ^ 32
      → s.verifying_key ≡ crypto.ed.verifying_key s.signing_key
      → t + s.config.token_ttl_secs < 2 ^ 63
      → t ≤ now
      → now < t + s.config.token_ttl_secs
      → (r : SignupResponse) × (token : LicenseToken) × (signup crypto s (pos t)
          ≡ some (r, record s { next_user_id = s.next_user_id + 1 }))
        × (from_string_b64 crypto.b64 r.license_token ≡ ok token)
        × (verify crypto.ed token s.verifying_key (pos now) ≡ ok tt)
        × (token.payload ≡ record {
          user_id = s.next_user_id;
          issued_at = pos t;
          expires_at = pos (t + s.config.token_ttl_secs);
          scope = 1;
        })
        × (length token.signature ≡ 64)
  unfolding signup issue_user_id
  signup_verifies s t now room key range from until =
      let ttl = s.config.token_ttl_secs in
      let payload : LicensePayload = record {
        user_id = s.next_user_id;
        issued_at = pos t;
        expires_at = pos (t + ttl);
        scope = 1;
      } in
      let token = sign crypto.ed payload s.signing_key in
      let valid : IsValid payload = record {
        user_u32 = omega arith;
        issued_i64 = omega arith;
        expires_i64 = omega arith;
        scope_u32 = omega arith;
      } in
      let size = crypto.ed.length-sign s.signing_key in
      (
        record {
          user_id = s.next_user_id;
          license_token = to_string_b64 crypto.b64 token;
          expires_at_unix = pos (t + ttl);
        },
        token,
        ground (arith, add_i64-pos t ttl),
        unfold sign in from_string_b64-to_string_b64 crypto.b64 token valid (size _),
        rw key (verify-sign crypto.ed payload s.signing_key (pos now) (omega arith) (omega arith)),
        unfold sign in refl,
        unfold sign in size _,
      )
