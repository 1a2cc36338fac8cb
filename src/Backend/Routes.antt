-- ===== src/Backend/Routes.antt =====
-- crates/gr-backend/src/routes.rs: the table of routes, the pages, and the answers. Which handler a request
-- comes to is axum's to say; its documented law is that a request of a route comes to the route's
-- handler. A panic is `none`.
pub mod Pinned
use lowping.Base.{
  ℕ, ◌≡◌, refl, ap, ◌↔◌, Bool, true, false, ◌&&◌, List, [], ◌∷◌, Option, none, some, arith,
}
use lowping.Base.Bytes.{Bytes}
use lowping.Base.Int.{ℤ}
use lowping.Base.Eq.{Eq, nat_eq, list_beq, list_beq_iff}
use lowping.Base.Dict.{Dict, get}
use lowping.Crypto.{Suite}
use lowping.Net.Show.{codes}
use lowping.Backend.{AppState, SignedDirectory, SignupResponse, Json, Chrono, bridges, signup}

pub data Method : Type 0 where
  get_method post_method : Method
  other_method : Bytes → Method

pub record Route : Type 0 where
  pub method : Method
  pub path : Bytes

abbrev pub method_beq : Method → Method → Bool
method_beq get_method get_method = true
method_beq get_method post_method = false
method_beq get_method (other_method b) = false
method_beq post_method get_method = false
method_beq post_method post_method = true
method_beq post_method (other_method b) = false
method_beq (other_method a) get_method = false
method_beq (other_method a) post_method = false
method_beq (other_method a) (other_method b) = list_beq a b

method_beq_iff : (a b : Method) → (method_beq a b ≡ true) ↔ (a ≡ b)
method_beq_iff get_method get_method = ((λ h. refl), (λ h. refl))
method_beq_iff get_method post_method = ((λ h. cc), (λ h. cc))
method_beq_iff get_method (other_method b) = ((λ h. cc), (λ h. cc))
method_beq_iff post_method get_method = ((λ h. cc), (λ h. cc))
method_beq_iff post_method post_method = ((λ h. refl), (λ h. refl))
method_beq_iff post_method (other_method b) = ((λ h. cc), (λ h. cc))
method_beq_iff (other_method a) get_method = ((λ h. cc), (λ h. cc))
method_beq_iff (other_method a) post_method = ((λ h. cc), (λ h. cc))
method_beq_iff (other_method a) (other_method b) =
    ((λ h. ap other_method ((list_beq_iff a b).0 h)), (λ h. (list_beq_iff a b).1 cc))

pub route_beq_iff :
    (a b : Route) → ((method_beq a.method b.method && list_beq a.path b.path) ≡ true) ↔ (a ≡ b)
route_beq_iff a b = ground (arith, method_beq_iff a.method b.method, list_beq_iff a.path b.path)

instance abbrev pub route_eq : Eq Route
route_eq = record {
  beq = λ a b. method_beq a.method b.method && list_beq a.path b.path;
  beq_iff = route_beq_iff;
}

pub data Handler : Type 0 where
  index health info bridges_handler signup_handler : Handler

-- `router`
abbrev pub routes : Dict Route Handler
routes =
    (record { method = get_method; path = codes "/" }, index)
    ∷ (record { method = get_method; path = codes "/v1/health" }, health)
    ∷ (record { method = get_method; path = codes "/v1/info" }, info)
    ∷ (record { method = get_method; path = codes "/v1/bridges" }, bridges_handler)
    ∷ (record { method = post_method; path = codes "/v1/signup" }, signup_handler)
    ∷ []

-- axum: the handler of a request, or the status of its own refusal.
pub record Axum : Type 0 where
  pub dispatch : Dict Route Handler → Route → Option Handler
  pub refusal : Route → ℕ
  pub dispatch-get :
      (table : Dict Route Handler) (r : Route) (h : Handler)
      → get r table ≡ some h
      → dispatch table r ≡ some h

pub record InfoResponse : Type 0 where
  pub service : Bytes
  pub backend_pubkey_hex : Bytes
  pub supported_scopes : List Bytes

pub data Body : Type 0 where
  text : Bytes → Body
  of_info : InfoResponse → Body
  of_directory : SignedDirectory → Body
  of_signup : SignupResponse → Body
  no_body : Body

pub record Response : Type 0 where
  pub status : ℕ
  pub body : Body

pub data AppError : Type 0 where
  internal bad_request : Bytes → AppError

-- `AppError::into_response`
unfoldable pub into_response : AppError → Response
into_response (internal m) = record { status = 500; body = text m }
into_response (bad_request m) = record { status = 400; body = text m }

abbrev pub fine : Body → Response
fine body = record { status = 200; body = body }

module _ (crypto : Suite) (chrono : Chrono) (js : Json) (json_error : Bytes) where
  unfoldable pub info_response : AppState → InfoResponse
  info_response s = record {
    service = codes "lowping-backend";
    backend_pubkey_hex = crypto.hex.encode s.verifying_key;
    supported_scopes = codes "any-bridge" ∷ [];
  }

  -- The handlers, at a time. `json_error` is the message of serde_json.
  unfoldable pub handle : Handler → AppState → ℤ → Option (Response × AppState)
  handle index s now = some (
    fine (
        text (
          codes
            "lowping backend — see https://github.com/twitchbionx/lowping for client / docs\n")),
    s,
  )
  handle health s now = some (fine (text (codes "ok")), s)
  handle info s now = some (fine (of_info (info_response s)), s)
  handle bridges_handler s now = elim (bridges crypto chrono js s now) [
    | none ↦ none
    | some none ↦ some (into_response (internal json_error), s)
    | some (some signed) ↦ some (fine (of_directory signed), s)
  ]
  handle signup_handler s now = elim (signup crypto s now) [
    | none ↦ none
    | some (r, s') ↦ some (fine (of_signup r), s')
  ]

  unfoldable pub answer : Axum → AppState → Route → ℤ → Option (Response × AppState)
  answer axum s r now = elim (axum.dispatch routes r) [
    | none ↦ some (record { status = axum.refusal r; body = no_body }, s)
    | some h ↦ handle h s now
  ]
