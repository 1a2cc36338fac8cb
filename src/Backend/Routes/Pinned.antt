-- ===== src/Backend/Routes/Pinned.antt =====
-- The key of the configuration verifies whatever the backend hands out.
use lowping.Base.{ℕ, ◌<◌, ◌≡◌, ◌⊎◌, true, List, [], ◌∷◌, Option, none, some, ok, All}
use lowping.Base.Bytes.{Bytes}
use lowping.Base.Int.{pos}
use lowping.Net.Show.{codes}
use lowping.Crypto.{Suite}
use lowping.Protocol.License.{LicenseToken, verify, from_string_b64}
use lowping.Backend.{
  AppState, BridgeDirectory, SignupResponse, SignedDirectory, Json, Chrono, bridges,
  verify_directory,
}
use lowping.Backend.Routes.{
  get_method, post_method, route_eq, InfoResponse, fine, internal, Route, Handler, index, health,
  info, bridges_handler, signup_handler, Axum, of_info, of_directory, of_signup, no_body, Response,
  into_response, answer,
}

-- What a client asks for.
pub data Request : Type 0 where
  get_info get_bridges post_signup : Request
  other : Route → Request

abbrev pub route_of : Request → Route
route_of get_info = record { method = get_method; path = codes "/v1/info" }
route_of get_bridges = record { method = get_method; path = codes "/v1/bridges" }
route_of post_signup = record { method = post_method; path = codes "/v1/signup" }
route_of (other r) = r

abbrev pub response_of : Option (Response × AppState) → Option Response
response_of none = none
response_of (some (response, s')) = some response

abbrev pub next_of : AppState → Option (Response × AppState) → AppState
next_of s none = s
next_of s (some (response, s')) = s'

module _ (crypto : Suite) (chrono : Chrono) (js : Json) (json_error : Bytes) (axum : Axum) where
  -- The answers to requests at these times, one after the other. A panic (`none`) leaves the state.
  unfoldable pub answers : AppState → List (Request × ℕ) → List (Request × ℕ × Option Response)
  answers s [] = []
  answers s ((q, t) ∷ requests) =
      let o = answer crypto chrono js json_error axum s (route_of q) (pos t) in
      (q, t, response_of o) ∷ answers (next_of s o) requests

  -- What a client that has pinned the key can check of the answer of a handler.
  abbrev pub Checked : Bytes → ℕ → Handler → Option Response → Type 0
  Checked key t index o = Unit {0}
  Checked key t health o = Unit {0}
  Checked key t info o =
      (i : InfoResponse) × (o ≡ some (fine (of_info i)))
      × (crypto.hex.decode i.backend_pubkey_hex ≡ some key)
  Checked key t bridges_handler o =
      (o ≡ none)
      ⊎ (o ≡ some (into_response (internal json_error)))
      ⊎ ((signed : SignedDirectory) × (d : BridgeDirectory) × (o
            ≡ some (fine (of_directory signed)))
          × (verify_directory crypto js signed key ≡ ok d)
          × All (λ b. b.enabled ≡ true) d.bridges)
  Checked key t signup_handler o =
      (o ≡ none)
      ⊎ ((r : SignupResponse) × (token : LicenseToken) × (o ≡ some (fine (of_signup r)))
          × (from_string_b64 crypto.b64 r.license_token ≡ ok token)
          × (verify crypto.ed token key (pos t) ≡ ok tt))

  -- The same for a request; axum refuses another route, or gives it to one of the handlers.
  abbrev pub Answers : Bytes → Request → ℕ → Option Response → Type 0
  Answers key get_info t o = Checked key t info o
  Answers key get_bridges t o = Checked key t bridges_handler o
  Answers key post_signup t o = Checked key t signup_handler o
  Answers key (other r) t o =
      (o ≡ some (record { status = axum.refusal r; body = no_body }))
      ⊎ ((h : Handler) × Checked key t h o)

  -- The backend's keys belong together, and are those of the start.
  record Keyed (key : Bytes) (ttl : ℕ) (s : AppState) : Type 0 where
    pair : s.verifying_key ≡ crypto.ed.verifying_key s.signing_key
    same : s.verifying_key ≡ key
    lives : s.config.token_ttl_secs ≡ ttl

  module _ (key : Bytes) (ttl : ℕ) (some_time : 0 < ttl) where
    -- The answer is one that a client can check, and the keys stay.
    abbrev Kept : ℕ → Handler → AppState → Option (Response × AppState) → Type 0
    Kept t h s o = Checked key t h (response_of o) × Keyed key ttl (next_of s o)
