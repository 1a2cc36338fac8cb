-- ===== src/Client/Udp.antt =====
-- The UDP sessions of the client: what goes out for a datagram, under which numbers, and what comes
-- back.
use lowping.Base.{
  ℕ, ◌+◌, ◌%◌, ◌^◌, ◌<◌, ◌≡◌, ◌≢◌, drop, refl, subst, ◌∙◌, List, [], ◌∷◌, Option, some, none, ok,
  Result-cases, inl, inr, arith, if◌then◌else◌, length,
}
use lowping.Base.Bytes.{Bytes}
use lowping.Base.Eq.{Eq}
use lowping.Base.Dict.{Dict, get, get-insert}
use lowping.Crypto.{Suite}
use lowping.Protocol.{Header, IsValid, encode}
use lowping.Protocol.Nonce.{derive_nonce, derive_nonce_injective}
use lowping.Protocol.Frame.{encrypt_frame, decrypt_frame}
use lowping.Protocol.Frame.Data.{decrypt_frame-encrypt_frame, sealed_body}
use lowping.Client.{
  OpenedTunnel, UdpSession, session_of, data_header, as_list, send_datagram, handle_datagram,
}

pub data_header-IsValid :
    (sess : UdpSession) → sess.connection_id < 2 ^ 32 → IsValid (data_header sess)
data_header-IsValid sess h = record {
  current = refl;
  flags_high = refl;
  flags_byte = omega arith;
  id_u32 = h;
  seq_u64 = omega arith;
}

-- The session after one datagram.
abbrev pub advanced : UdpSession → ℕ → UdpSession
advanced sess at = record sess { tx_sequence = (sess.tx_sequence + 1) % 2 ^ 64; last_active = at }

pub as_list_one : {A : Type 0} (o : Option A) (a : A) → as_list o ≡ a ∷ [] → o ≡ some a
as_list_one none a e = absurd cc
as_list_one (some b) a e = cc

module _ (crypto : Suite) where
  send_datagram-after :
      (sess : UdpSession) (payload : Bytes) (at : ℕ)
      → (send_datagram crypto sess payload at).1 ≡ advanced sess at
  unfolding send_datagram
  send_datagram-after sess payload at =
      elim (Result-cases (encrypt_frame crypto.aead sess.aead_key (data_header sess) payload)) [
        | inl (wire, sealed) ↦ ground arith
        | inr (x, bad) ↦ ground arith
      ]

  pub send_datagram-eq-some :
      (sess : UdpSession) (payload wire : Bytes) (at udp : ℕ)
      → (send_datagram crypto sess payload at).0 ≡ some (udp, wire)
      → (encrypt_frame crypto.aead sess.aead_key (data_header sess) payload ≡ ok wire)
        × (udp ≡ sess.udp_to_bridge)
  unfolding send_datagram
  send_datagram-eq-some sess payload wire at udp e =
      elim (Result-cases (encrypt_frame crypto.aead sess.aead_key (data_header sess) payload)) [
        | inl (w, sealed) ↦ (ground arith, ground arith)
        | inr (x, bad) ↦ absurd (ground arith)
      ]

  module _ {ℓ} {K : Type ℓ} ⦃e : Eq K⦄ where
    -- A datagram of a source that has a session moves that session's counter and clock, whether or not
    -- its frame could be sealed, and no other session.
    pub get-handle_datagram :
        (sessions : Dict K UdpSession) (src other : K) (sess : UdpSession)
        (fresh : Option (OpenedTunnel × Bytes)) (payload : Bytes) (at : ℕ)
        → get src sessions ≡ some sess
        → get other (handle_datagram crypto sessions src fresh payload at).1
          ≡ (if e.beq src other then some (advanced sess at) else get other sessions)
    unfolding handle_datagram
    get-handle_datagram sessions src other sess fresh payload at found =
        rw (found, handle_datagram, send_datagram-after sess payload at)
          (get-insert src other (advanced sess at) sessions)

    pub handle_datagram-known :
        (sessions : Dict K UdpSession) (src : K) (sess : UdpSession)
        (fresh : Option (OpenedTunnel × Bytes)) (payload : Bytes) (at : ℕ)
        → get src sessions ≡ some sess
        → (handle_datagram crypto sessions src fresh payload at).0
          ≡ as_list (send_datagram crypto sess payload at).0
    unfolding handle_datagram
    handle_datagram-known sessions src sess fresh payload at found =
        rw (found, handle_datagram) refl

    pub handle_datagram-new :
        (sessions : Dict K UdpSession) (src : K) (tunnel : OpenedTunnel) (syn payload : Bytes)
        (at : ℕ)
        → get src sessions ≡ none
        → (handle_datagram crypto sessions src (some (tunnel, syn)) payload at).0
          ≡ (tunnel.udp_to_bridge, syn)
            ∷ as_list (send_datagram crypto (session_of tunnel at) payload at).0
    unfolding handle_datagram
    handle_datagram-new sessions src tunnel syn payload at found = rw (found, handle_datagram) refl

  -- The datagrams of one session in a row, with the frames that went out.
  unfoldable pub send_all : UdpSession → List (Bytes × ℕ) → List (Option (ℕ × Bytes)) × UdpSession
  send_all sess [] = ([], sess)
  send_all sess ((payload, at) ∷ rest) =
      let (sent, sess') = send_datagram crypto sess payload at in
      let (more, sess'') = send_all sess' rest in (sent ∷ more, sess'')

  -- The frames go out for this connection and key, numbered one by one from `k` on, and each is sealed
  -- under the nonce of its number; `none` leaves a gap.
  abbrev pub Numbered : Bytes → ℕ → ℕ → List (Option (ℕ × Bytes)) → Type 0
  Numbered key id k [] = Unit {0}
  Numbered key id k (none ∷ rest) = Numbered key id (k + 1) rest
  Numbered key id k (some (udp, wire) ∷ rest) =
      ((h : Header) × (payload : Bytes) × (decrypt_frame crypto.aead key wire ≡ ok (h, payload))
        × (h.connection_id ≡ id)
        × (h.sequence ≡ k)
        × (crypto.aead.encrypt key (derive_nonce id k) payload (encode h) ≡ some (drop 13 wire)))
      × Numbered key id (k + 1) rest

  Numbered-more :
      (sess : UdpSession) (sent : Option (ℕ × Bytes)) (rest : List (Option (ℕ × Bytes)))
      (payload : Bytes) (at : ℕ)
      → sess.connection_id < 2 ^ 32
      → sess.tx_sequence + 1 < 2 ^ 64
      → (send_datagram crypto sess payload at).0 ≡ sent
      → Numbered sess.aead_key sess.connection_id (sess.tx_sequence + 1 + 1) rest
      → Numbered sess.aead_key sess.connection_id (sess.tx_sequence + 1) (sent ∷ rest)
  Numbered-more sess none rest payload at id fits e more = more
  Numbered-more sess (some (udp, wire)) rest payload at id fits e more =
      let (sealed, _) = send_datagram-eq-some sess payload wire at udp e in
      let opened =
        decrypt_frame-encrypt_frame crypto.aead sess.aead_key (data_header sess) payload wire
          (data_header-IsValid sess id) sealed in
      let number : (sess.tx_sequence + 1) % 2 ^ 64 ≡ sess.tx_sequence + 1 = omega arith in
      let body = sealed_body crypto.aead sess.aead_key (data_header sess) payload wire sealed in
      let under =
        subst
          (λ n.
            crypto.aead.encrypt sess.aead_key (derive_nonce sess.connection_id n) payload
              (encode (data_header sess))
            ≡ some (drop 13 wire))
          number body in
      ((data_header sess, payload, opened, refl, number, under), more)

  send_all_consecutive :
      (sess : UdpSession) (datagrams : List (Bytes × ℕ))
      → sess.connection_id < 2 ^ 32
      → sess.tx_sequence + length datagrams < 2 ^ 64
      → Numbered sess.aead_key sess.connection_id (sess.tx_sequence + 1) (send_all sess datagrams).0
        × ((send_all sess datagrams).1.tx_sequence ≡ sess.tx_sequence + length datagrams)
  unfolding send_all
  send_all_consecutive sess [] id fits = (tt, ground arith)
  send_all_consecutive sess ((payload, at) ∷ rest) id fits =
      let sess' = advanced sess at in
      let counted : sess'.tx_sequence ≡ sess.tx_sequence + 1 = omega arith in
      let (more, last) = send_all_consecutive sess' rest id (omega arith) in
      let after = send_datagram-after sess payload at in
      let next =
        subst (λ n. Numbered sess.aead_key sess.connection_id (n + 1) (send_all sess' rest).0)
          counted more in
      (
        Numbered-more sess (send_datagram crypto sess payload at).0 _ payload at id (omega arith)
            refl (rw after next),
        rw after (last ∙ omega arith),
      )

  -- The frames of one session open under its key, carry consecutive sequence numbers from the counter
  -- on, as long as these stay below the largest `u64`, and are each sealed under the nonce of its
  -- number; and the nonces of two of them differ.
  pub send_all-Numbered :
      (sess : UdpSession) (datagrams : List (Bytes × ℕ)) (i j : ℕ)
      → sess.connection_id < 2 ^ 32
      → sess.tx_sequence + length datagrams < 2 ^ 64
      → i < j
      → j < length datagrams
      → Numbered sess.aead_key sess.connection_id (sess.tx_sequence + 1) (send_all sess datagrams).0
        × ((send_all sess datagrams).1.tx_sequence ≡ sess.tx_sequence + length datagrams)
        × (derive_nonce sess.connection_id (sess.tx_sequence + 1 + i)
            ≢ derive_nonce sess.connection_id (sess.tx_sequence + 1 + j))
  send_all-Numbered sess datagrams i j id fits before inside =
      let (numbered, counted) = send_all_consecutive sess datagrams id fits in
      (
        numbered,
        counted,
        λ same.
            let (_, equal, _) =
              derive_nonce_injective sess.connection_id (sess.tx_sequence + 1 + i)
                sess.connection_id (sess.tx_sequence + 1 + j) id (omega arith) id (omega arith)
                same in
            omega arith,
      )
