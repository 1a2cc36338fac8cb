-- ===== src/EndToEnd/Setup.antt =====
-- The keys from their generation to a session: what the two `gen-key` commands print goes into the
-- configurations, the backend and the bridge start from these, and the client uses the printed key.
use lowping.Base.{
  ℕ, ◌+◌, ◌≤◌, ◌<◌, ◌^◌, ◌≡◌, sym, ap, ◌∙◌, Bool, true, false, some, Result, ok, bail_if, ◌>>=◌,
  not, >>=-eq-ok, ok_injective, map_err-eq-ok, subst, length, arith, ◌==◌,
}
use lowping.Base.Bytes.{Bytes}
use lowping.Base.Int.{pos}
use lowping.Crypto.{Suite}
use lowping.Net.{SocketAddr}
use lowping.Protocol.Connect
use lowping.Protocol.Connect.{ConnectRequest}
use lowping.Protocol.Handshake.{generate_keypair, secret_from_bytes}
use lowping.Backend.{AppState, BackendConfig, SignupResponse, new_state, signup}
use lowping.Backend.Setup.{gen_key as backend_gen_key}
use lowping.Bridge.{
  BridgeConfig, BridgeState, Network, DestWriter, open_dest, accepted, handle_packet, register,
}
use lowping.Bridge.Run.{start}
use lowping.Bridge.Setup.{
  gen_key as bridge_gen_key, parsed_x25519_secret, parsed_backend_pubkey, bad_pubkey_length,
  not_a_point, set_up,
}
use lowping.Client.{Peer, Draw, OpenedTunnel, open_tunnel}
use lowping.EndToEnd.{conn_key, Serves, signup_to_session}

secret_from_bytes-eq-ok :
    (bytes secret : Bytes) → secret_from_bytes bytes ≡ ok secret → bytes ≡ secret
unfolding secret_from_bytes
secret_from_bytes-eq-ok bytes secret e = ground arith

bail_if-eq-ok :
    {Err A : Type 0} (b : Bool) (x : Err) (r : Result Err A) (a : A)
    → (bail_if b x >>= λ done. r) ≡ ok a
    → r ≡ ok a
bail_if-eq-ok true x r a e = absurd cc
bail_if-eq-ok false x r a e = e

module _ (crypto : Suite) where
  open crypto use {ecdh, ed, hex}

  -- A backend that started with the printed secret signs with it.
  new_state-gen_key :
      (drawn : Bytes) (cfg : BackendConfig) (s : AppState)
      → cfg.backend_seckey_hex ≡ (backend_gen_key crypto drawn).0
      → new_state crypto cfg ≡ ok s
      → record {
        config = cfg;
        signing_key = drawn;
        verifying_key = ed.verifying_key drawn;
        next_user_id = 1;
      }
        ≡ s
  unfolding new_state backend_gen_key
  new_state-gen_key drawn cfg s printed e =
      let read = ap hex.decode printed ∙ hex.decode-encode drawn in
      ok_injective _ s (bail_if-eq-ok _ _ _ s (rw read at e))

  set_up-gen_key :
      (is_point : Bytes → Bool) (drawn backend : Bytes) (cfg : BridgeConfig) (bound : Bool)
      (st : BridgeState)
      → cfg.bridge_x25519_seckey_hex ≡ (bridge_gen_key crypto drawn).0
      → cfg.backend_ed25519_pubkey_hex ≡ (backend_gen_key crypto backend).1
      → set_up crypto is_point cfg bound ≡ ok st
      → start cfg drawn (ed.verifying_key backend) ≡ st
  unfolding set_up parsed_x25519_secret parsed_backend_pubkey bridge_gen_key backend_gen_key
      generate_keypair
  set_up-gen_key is_point drawn backend cfg bound st mine theirs e =
      let secret = ap hex.decode mine ∙ hex.decode-encode drawn in
      let key = ap hex.decode theirs ∙ hex.decode-encode (ed.verifying_key backend) in
      let (kept, checked, e1) = >>=-eq-ok (parsed_x25519_secret crypto cfg) _ e in
      let (point, tested, e2) = >>=-eq-ok (parsed_backend_pubkey crypto is_point cfg) _ e1 in
      let same =
        secret_from_bytes-eq-ok drawn kept
          (map_err-eq-ok _ (secret_from_bytes drawn) kept (rw secret at checked)) in
      let pk = ed.verifying_key backend in
      let long =
        bail_if-eq-ok (not (length pk == 32)) bad_pubkey_length _ point (rw key at tested) in
      let other =
        ok_injective pk point (bail_if-eq-ok (not (is_point pk)) not_a_point _ point long) in
      rw (same, other) (ok_injective _ st (bail_if-eq-ok _ _ _ st e2))

  -- The operator runs `gen-key` for the backend and for the bridge, and both start from configurations
  -- with the printed lines. A token of the first signup then opens a session at the new bridge, for
  -- a client that has the bridge's printed key, at every time from the signup to the end of the
  -- token's time to live, exclusive: the bridge has room for one session at least and reaches the
  -- destination.
  pub gen_key_to_session :
      (is_point : Bytes → Bool) (net : Network) (bcfg : BackendConfig) (cfg : BridgeConfig)
      (drawn_backend drawn_bridge : Bytes) (bound : Bool) (s s' : AppState) (st : BridgeState)
      (t now : ℕ) (r : SignupResponse) (addr : SocketAddr) (peer : Peer) (draw : Draw)
      (connect : ConnectRequest) (tunnel : OpenedTunnel) (syn : Bytes) (w : DestWriter) (at : ℕ)
      → bcfg.backend_seckey_hex ≡ (backend_gen_key crypto drawn_backend).0
      → cfg.backend_ed25519_pubkey_hex ≡ (backend_gen_key crypto drawn_backend).1
      → cfg.bridge_x25519_seckey_hex ≡ (bridge_gen_key crypto drawn_bridge).0
      → peer.bridge_x25519_pubkey_hex ≡ (bridge_gen_key crypto drawn_bridge).1
      → new_state crypto bcfg ≡ ok s
      → set_up crypto is_point cfg bound ≡ ok st
      → 0 < cfg.max_sessions
      → t + bcfg.token_ttl_secs < 2 ^ 63
      → t ≤ now
      → now < t + bcfg.token_ttl_secs
      → signup crypto s (pos t) ≡ some (r, s')
      → peer.license_token ≡ r.license_token
      → Connect.IsValid connect
      → draw.connection_id < 2 ^ 32
      → open_dest net connect ≡ some w
      → open_tunnel crypto peer draw connect ≡ ok (tunnel, syn)
      → handle_packet crypto net st addr syn (pos now) at ≡ (
        ok accepted,
        register crypto st (conn_key addr tunnel.connection_id) tunnel.aead_key w at,
      )
  unfolding start bridge_gen_key generate_keypair
  gen_key_to_session is_point net bcfg cfg drawn_backend drawn_bridge bound s s' st t now r addr
        peer draw connect tunnel syn w at secret_b key_b secret_r key_r backend_up bridge_up room
        range from until signed text valid id reached opened =
      let state = new_state-gen_key drawn_backend bcfg s secret_b backend_up in
      let began =
        set_up-gen_key is_point drawn_bridge drawn_backend cfg bound st secret_r key_b bridge_up in
      let ttl = ap (λ (a : AppState). a.config.token_ttl_secs) state in
      let verifies = ap (λ (a : AppState). a.verifying_key) state in
      let signs = ap (λ (a : AppState). a.signing_key) state in
      let first = ap (λ (a : AppState). a.next_user_id) state in
      let knows =
        ap crypto.hex.decode key_r ∙ crypto.hex.decode-encode (ecdh.public_key drawn_bridge) in
      let serves : Serves crypto net st peer draw connect w = record {
        knows_key = knows ∙ ap (λ (b : BridgeState). some (ecdh.public_key b.bridge_secret)) began;
        valid = valid;
        id_u32 = id;
        room = subst (λ (b : BridgeState). length b.sessions < b.config.max_sessions) began room;
        reached = reached;
      } in
      signup_to_session crypto net s s' t now r st addr peer draw connect tunnel syn w at
        (omega arith) (sym verifies ∙ ap ed.verifying_key signs)
        (ap (λ (b : BridgeState). b.backend_pubkey) (sym began) ∙ verifies) (rw ttl at range) from
        (rw ttl at until) signed text serves opened
