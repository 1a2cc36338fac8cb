-- ===== src/Bridge/Races.antt =====
-- Overlapping handlers. `accept_new_session` waits for the destination between its check of the table
-- and its write to it; other handlers run meanwhile. A state here has the handlers that wait.
use lowping.Base.{
  ℕ, ◌+◌, ◌≤◌, ◌<◌, ◌≡◌, refl, ap, ◌∙◌, false, length, List, [], ◌∷◌, ◌++◌, none, some, ok, arith,
  length-append,
}
use lowping.Base.Bytes.{Bytes}
use lowping.Base.Int.{ℤ}
use lowping.Base.Dict.{get, insert, get-insert, length-insert-le, length-insert_absent}
use lowping.Crypto.{Suite}
use lowping.Protocol.Connect.{ConnectRequest}
use lowping.Bridge.{
  SessionKey, key_eq, key_beq, BridgeState, Network, DestWriter, new_session, check_syn, register,
  open_dest,
}
use lowping.Bridge.Accept.{check_syn_sound}

pub record Pending : Type 0 where
  pub key : SessionKey
  pub aead_key : Bytes
  pub connect : ConnectRequest

pub record Overlap : Type 0 where
  pub state : BridgeState
  pub pending : List Pending

module _ (crypto : Suite) where
  -- A handler starts to wait, and ends by an entry in the table or by an error. At most `limit`
  -- handlers wait at a time.
  pub data Step (limit : ℕ) : Overlap → Overlap → Type 0 where
    begin :
        (o : Overlap) (key : SessionKey) (pkt : Bytes) (now : ℤ) (k : Bytes) (c : ConnectRequest)
        → check_syn crypto o.state pkt now ≡ ok (k, c)
        → length o.pending < limit
        → Step limit o
            (record o { pending = record { key = key; aead_key = k; connect = c } ∷ o.pending })
    finish :
        (o : Overlap) (front back : List Pending) (p : Pending) (net : Network) (w : DestWriter)
        (at : ℕ)
        → o.pending ≡ front ++ (p ∷ back)
        → open_dest net p.connect ≡ some w
        → Step limit o (record {
          state = register crypto o.state p.key p.aead_key w at;
          pending = front ++ back;
        })
    abandon :
        (o : Overlap) (front back : List Pending) (p : Pending) (net : Network)
        → o.pending ≡ front ++ (p ∷ back)
        → open_dest net p.connect ≡ none
        → Step limit o (record o { pending = front ++ back })

  pub data Reach (limit : ℕ) (o : Overlap) : Overlap → Type 0 where
    here : Reach limit o o
    next : {p q : Overlap} → Reach limit o p → Step limit p q → Reach limit o q

  -- Sessions and waiting handlers together stay within the limit on each.
  abbrev Within : ℕ → ℕ → Overlap → Type 0
  Within max limit o =
      (o.state.config.max_sessions ≡ max)
      × (length o.state.sessions + length o.pending + 1 ≤ max + limit)

  Step-Within :
      (max limit : ℕ) {o q : Overlap}
      → Step limit o q
      → 1 ≤ limit
      → Within max limit o
      → Within max limit q
  unfolding register
  Step-Within max limit (begin o key pkt now k c passed few) l w =
      let room = (check_syn_sound crypto o.state pkt k now c passed).0 in (w.0, omega arith)
  Step-Within max limit (finish o front back p net wr at e opened) l w =
      let before = ap length e in
      let grown = length-insert-le p.key (new_session p.aead_key wr at) o.state.sessions in
      (w.0, omega (arith, before, grown, length-append front (p ∷ back), length-append front back))
  Step-Within max limit (abandon o front back p net e closed) l w =
      (w.0, omega (arith, ap length e, length-append front (p ∷ back), length-append front back))

  Reach-Within :
      (max limit : ℕ) {o q : Overlap}
      → Reach limit o q
      → 1 ≤ limit
      → Within max limit o
      → Within max limit q
  Reach-Within max limit here l w = w
  Reach-Within max limit (next r s) l w = Step-Within max limit s l (Reach-Within max limit r l w)

  -- With at most `limit` handlers waiting at a time, the table that starts empty never holds more than
  -- `max_sessions + limit - 1` sessions, in any interleaving.
  pub Reach-bounded :
      (limit : ℕ) (st : BridgeState) (q : Overlap)
      → 1 ≤ limit
      → 1 ≤ st.config.max_sessions
      → st.sessions ≡ []
      → Reach limit (record { state = st; pending = [] }) q
      → length q.state.sessions + 1 ≤ st.config.max_sessions + limit
  Reach-bounded limit st q l m empty r =
      let none_yet : length st.sessions ≡ 0 = ap length empty in
      let w = Reach-Within st.config.max_sessions limit r l (refl, omega (arith, none_yet)) in
      omega (arith, w.1)

  -- Two handlers are enough to pass the limit: on a table with room for one session, two SYNs for new
  -- keys that pass the check before either is entered are both entered.
  pub racing_accepts_exceed :
      (st : BridgeState) (a b : SessionKey) (p q : Bytes) (now : ℤ) (k l : Bytes)
      (c d : ConnectRequest) (net : Network) (v w : DestWriter) (at : ℕ)
      → length st.sessions + 1 ≡ st.config.max_sessions
      → check_syn crypto st p now ≡ ok (k, c)
      → check_syn crypto st q now ≡ ok (l, d)
      → open_dest net c ≡ some v
      → open_dest net d ≡ some w
      → get a st.sessions ≡ none
      → get b st.sessions ≡ none
      → key_beq a b ≡ false
      → (o : Overlap) × Reach 2 (record { state = st; pending = [] }) o
        × (st.config.max_sessions < length o.state.sessions)
  racing_accepts_exceed st a b p q now k l c d net v w at one ea eb oc od na nb differ = (
    record { state = register crypto (register crypto st a k v at) b l w at; pending = [] },
    next
        (next (next (next here (begin _ a p now k c ea few)) (begin _ b q now l d eb fewer))
          (finish _ (second ∷ []) [] first net v at refl oc))
        (finish _ [] [] second net w at refl od),
    unfold register in
        omega (
          arith,
          length-insert_absent a (new_session k v at) st.sessions na,
          length-insert_absent b (new_session l w at) (insert a (new_session k v at) st.sessions)
              still,
        ),
  )
    where
      first : Pending
      first = record { key = a; aead_key = k; connect = c }

      second : Pending
      second = record { key = b; aead_key = l; connect = d }

      few : 0 < 2
      few = omega arith

      fewer : 1 < 2
      fewer = omega arith

      still : get b (insert a (new_session k v at) st.sessions) ≡ none
      still = get-insert a b (new_session k v at) st.sessions ∙ rw differ nb
