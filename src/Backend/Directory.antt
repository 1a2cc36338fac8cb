-- ===== src/Backend/Directory.antt =====
-- The signed directory: what the backend publishes is what a client reads, enabled bridges only.
use lowping.Base.{
  ◌≡◌, refl, true, List, [], ◌∷◌, some, ok, arith, All, Option-cases, inl, inr, some_injective,
}
use lowping.Base.Bytes.{Bytes}
use lowping.Base.Int.{ℤ, ◌+ℤ◌}
use lowping.Crypto.{Suite}
use lowping.Backend.{
  AppState, BridgeEntry, BridgeDirectory, SignedDirectory, Json, Chrono, as_i64, enabled_only,
  sign_directory, verify_directory, bridges,
}

enabled_only-All : (bs : List BridgeEntry) → All (λ b. b.enabled ≡ true) (enabled_only bs)
enabled_only-All [] = tt
enabled_only-All (b ∷ bs) = ground (arith, enabled_only-All bs)

module _ (crypto : Suite) (js : Json) where
  -- What was signed verifies under the signer's key and is the directory again.
  verify_directory-sign_directory :
      (d : BridgeDirectory) (sk : Bytes) (signed : SignedDirectory)
      → sign_directory crypto js d sk ≡ some signed
      → verify_directory crypto js signed (crypto.ed.verifying_key sk) ≡ ok d
  unfolding sign_directory verify_directory
  verify_directory-sign_directory d sk signed e = elim (Option-cases (js.to_vec d)) [
    | inl bad ↦ absurd (ground arith)
    | inr (bs, written) ↦ ground (
      arith,
      js.from_slice-to_vec d bs,
      crypto.b64.decode-encode bs,
      crypto.b64.decode-encode (crypto.ed.sign sk bs),
      crypto.ed.verify-sign sk bs,
      crypto.ed.length-sign sk bs,
    )
  ]

  -- A client with the backend's key reads from `GET /v1/bridges` a directory of this time that lives as
  -- long as configured, and lists enabled bridges only, all of the configuration's.
  pub bridges_verify :
      (chrono : Chrono) (s : AppState) (now : ℤ) (signed : SignedDirectory)
      → s.verifying_key ≡ crypto.ed.verifying_key s.signing_key
      → bridges crypto chrono js s now ≡ some (some signed)
      → (d : BridgeDirectory) × (verify_directory crypto js signed s.verifying_key ≡ ok d)
        × (d.issued_at ≡ now)
        × (d.expires_at ≡ now +ℤ as_i64 s.config.directory_ttl_secs)
        × (d.bridges ≡ enabled_only s.config.bridges)
        × All (λ b. b.enabled ≡ true) d.bridges
  unfolding bridges
  bridges_verify chrono s now signed key e =
      elim (Option-cases (chrono.add_seconds now (as_i64 s.config.directory_ttl_secs))) [
        | inl out_of_range ↦ absurd (ground arith)
        | inr (end, later) ↦
            let d : BridgeDirectory = record {
              version = 1;
              issued_at = now;
              expires_at = end;
              bridges = enabled_only s.config.bridges;
            } in
            let made : sign_directory crypto js d s.signing_key ≡ some signed =
              some_injective _ (some signed) (rw (later, bridges) at e) in
            (
              d,
              rw key (verify_directory-sign_directory d s.signing_key signed made),
              refl,
              chrono.add_seconds-eq-some now _ end later,
              refl,
              enabled_only-All s.config.bridges,
            )
      ]
