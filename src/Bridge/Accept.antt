-- ===== src/Bridge/Accept.antt =====
-- When the bridge opens a session, and what the table is then.
use Prim.Native.Nat.{bit_and}
use lowping.Base.{
  ℕ, ◌≤◌, ◌<◌, ◌≡◌, ◌≢◌, ◌⊎◌, inl, inr, refl, Bool, true, false, length, take, drop, ok, err,
  Result-cases, arith, ◌==◌, ltb_of_le, leb_of_lt, not, ◌&&◌,
}
use lowping.Base.Bytes.{Bytes}
use lowping.Base.Int.{ℤ, ◌≤ℤ◌, ◌<ℤ◌}
use lowping.Crypto.{Suite}
use lowping.Protocol.{Header}
use lowping.Protocol.Frame.{parse_syn_front, decrypt_syn_payload}
use lowping.Protocol.Connect
use lowping.Protocol.Connect.{ConnectRequest}
use lowping.Protocol.Handshake.{pubkey_from_bytes, bridge_derive_session_key}
use lowping.Protocol.License
use lowping.Protocol.License.{LicenseToken, from_bytes, verify}
use lowping.Protocol.License.Validity.{verify-eq-ok, verify_complete}
use lowping.Bridge.{BridgeState, BridgeError, check_payload, check_syn}

-- What a SYN must hold for the bridge: it opens under the key derived from the public key in it, and
-- carries a token and a CONNECT request.
pub record Opens (crypto : Suite) (st : BridgeState) (pkt key : Bytes) (c : ConnectRequest)
    : Type 0 where
  pub header : Header
  pub client_pk : Bytes
  pub inner : Bytes
  pub token : LicenseToken
  pub front : parse_syn_front pkt ≡ ok (header, client_pk)
  pub pk_bytes : pubkey_from_bytes client_pk ≡ ok client_pk
  pub derived : key ≡ bridge_derive_session_key crypto.ecdh st.bridge_secret client_pk
  pub opened : decrypt_syn_payload crypto.aead key pkt ≡ ok inner
  pub long : 92 ≤ length inner
  pub token_read : from_bytes (take 88 inner) ≡ ok token
  pub connect_read : Connect.decode (drop 88 inner) ≡ ok c

-- The token's authority: signed by the backend, in its window, and with the scope asked for.
pub record Authorised (crypto : Suite) (st : BridgeState) (now : ℤ) (token : LicenseToken)
    : Type 0 where
  pub signed :
      crypto.ed.verify st.backend_pubkey (License.encode token.payload) token.signature ≡ true
  pub issued : token.payload.issued_at ≤ℤ now
  pub unexpired : now <ℤ token.payload.expires_at
  pub scoped : (st.config.allow_any_scope ≡ true) ⊎ (bit_and token.payload.scope 1 ≢ 0)

-- The guard on the scope, as a statement.
scope_guard : (any : Bool) (bit : ℕ) → (any ≡ true) ⊎ (bit ≢ 0) → (not any && bit == 0) ≡ false
scope_guard true bit h = refl
scope_guard false bit h = ground arith

module _ (crypto : Suite) where
  payload_sound :
      (st : BridgeState) (inner : Bytes) (now : ℤ) (c : ConnectRequest)
      → check_payload crypto st inner now ≡ ok c
      → (token : LicenseToken) × (92 ≤ length inner)
        × (from_bytes (take 88 inner) ≡ ok token)
        × (verify crypto.ed token st.backend_pubkey now ≡ ok tt)
        × ((st.config.allow_any_scope ≡ true) ⊎ (bit_and token.payload.scope 1 ≢ 0))
        × (Connect.decode (drop 88 inner) ≡ ok c)
  unfolding check_payload
  payload_sound st inner now c e = elim (Result-cases (from_bytes (take 88 inner))) [
    | inr (x, bad) ↦ absurd (ground arith)
    | inl (token, read) ↦ elim (Result-cases (verify crypto.ed token st.backend_pubkey now)) [
      | inr (x, bad) ↦ absurd (ground arith)
      | inl (_, good) ↦ (token, ground arith, read, good, ground arith, ground arith)
    ]
  ]

  payload_complete :
      (st : BridgeState) (inner : Bytes) (now : ℤ) (c : ConnectRequest) (token : LicenseToken)
      → 92 ≤ length inner
      → from_bytes (take 88 inner) ≡ ok token
      → verify crypto.ed token st.backend_pubkey now ≡ ok tt
      → (st.config.allow_any_scope ≡ true) ⊎ (bit_and token.payload.scope 1 ≢ 0)
      → Connect.decode (drop 88 inner) ≡ ok c
      → check_payload crypto st inner now ≡ ok c
  unfolding check_payload
  payload_complete st inner now c token long read good scope request = rw (
    ltb_of_le (length inner) 92 long,
    read,
    good,
    scope_guard st.config.allow_any_scope (bit_and token.payload.scope 1) scope,
    request,
  )

  -- What the guards say, once the fallible steps are known to have passed.
  guards :
      (st : BridgeState) (pkt key : Bytes) (now : ℤ) (c d : ConnectRequest) (h : Header)
      (pk inner : Bytes)
      → parse_syn_front pkt ≡ ok (h, pk)
      → decrypt_syn_payload crypto.aead
          (bridge_derive_session_key crypto.ecdh st.bridge_secret pk)
          pkt
        ≡ ok inner
      → check_payload crypto st inner now ≡ ok d
      → check_syn crypto st pkt now ≡ ok (key, c)
      → (length st.sessions < st.config.max_sessions)
        × (pubkey_from_bytes pk ≡ ok pk)
        × (key ≡ bridge_derive_session_key crypto.ecdh st.bridge_secret pk)
        × (c ≡ d)
  unfolding check_syn pubkey_from_bytes
  guards st pkt key now c d h pk inner front opened passed e = ground arith

  refused :
      (st : BridgeState) (pkt : Bytes) (now : ℤ) (h : Header) (pk inner : Bytes) (x : BridgeError)
      → parse_syn_front pkt ≡ ok (h, pk)
      → decrypt_syn_payload crypto.aead
          (bridge_derive_session_key crypto.ecdh st.bridge_secret pk)
          pkt
        ≡ ok inner
      → check_payload crypto st inner now ≡ err x
      → (r : Bytes × ConnectRequest) → check_syn crypto st pkt now ≢ ok r
  unfolding check_syn pubkey_from_bytes
  refused st pkt now h pk inner x front opened bad r e = ground arith

  opened_parts :
      (st : BridgeState) (pkt key : Bytes) (now : ℤ) (c : ConnectRequest)
      → check_syn crypto st pkt now ≡ ok (key, c)
      → (h : Header) × (pk : Bytes) × (inner : Bytes) × (parse_syn_front pkt ≡ ok (h, pk))
        × (decrypt_syn_payload crypto.aead
              (bridge_derive_session_key crypto.ecdh st.bridge_secret pk)
              pkt
            ≡ ok inner)
  unfolding check_syn pubkey_from_bytes
  opened_parts st pkt key now c e = elim (Result-cases (parse_syn_front pkt)) [
    | inr (x, bad) ↦ absurd (ground arith)
    | inl ((h, pk), front) ↦
        let k : Bytes = bridge_derive_session_key crypto.ecdh st.bridge_secret pk in
        elim (Result-cases (decrypt_syn_payload crypto.aead k pkt)) [
          | inr (x, bad) ↦ absurd (ground arith)
          | inl (inner, opened) ↦ (h, pk, inner, front, opened)
        ]
  ]

  -- Whatever passes the checks met a table with room, opens under the key derived from it, and carries
  -- a token with authority.
  pub check_syn_sound :
      (st : BridgeState) (pkt key : Bytes) (now : ℤ) (c : ConnectRequest)
      → check_syn crypto st pkt now ≡ ok (key, c)
      → (length st.sessions < st.config.max_sessions)
        × (o : Opens crypto st pkt key c) × Authorised crypto st now o.token
  check_syn_sound st pkt key now c e =
      let (h, pk, inner, front, opened) = opened_parts st pkt key now c e in
      elim (Result-cases (check_payload crypto st inner now)) [
        | inr (x, bad) ↦ absurd (refused st pkt now h pk inner x front opened bad (key, c) e)
        | inl (d, passed) ↦
            let (room, pk_bytes, derived, same) =
              guards st pkt key now c d h pk inner front opened passed e in
            let (token, long, read, good, scope, request) = payload_sound st inner now d passed in
            let (signed, lo, hi) = verify-eq-ok crypto.ed token st.backend_pubkey now good in
            (
              room,
              record {
                header = h;
                client_pk = pk;
                inner = inner;
                token = token;
                front = front;
                pk_bytes = pk_bytes;
                derived = derived;
                opened = rw derived opened;
                long = long;
                token_read = read;
                connect_read = rw same request;
              },
              record { signed = signed; issued = lo; unexpired = hi; scoped = scope },
            )
      ]

  -- They accept whatever has all of that.
  pub check_syn_complete :
      (st : BridgeState) (pkt key : Bytes) (now : ℤ) (c : ConnectRequest)
      → length st.sessions < st.config.max_sessions
      → (o : Opens crypto st pkt key c) → Authorised crypto st now o.token
      → check_syn crypto st pkt now ≡ ok (key, c)
  unfolding check_syn
  check_syn_complete st pkt key now c room o a =
      let free = leb_of_lt st.config.max_sessions (length st.sessions) room in
      let good =
        verify_complete crypto.ed o.token st.backend_pubkey now a.signed a.issued a.unexpired in
      let rest =
        payload_complete st o.inner now c o.token o.long o.token_read good a.scoped
          o.connect_read in
      rw (free, o.front, o.pk_bytes, ← o.derived, o.opened, rest)
