-- ===== src/Bridge/Reaper.antt =====
-- What one tick of the idle reaper takes away.
use lowping.Base.{
  ℕ, ◌+◌, ◌≡◌, refl, Bool, false, ◌&&◌, ◌||◌, not, List, [], ◌∷◌, Option, none, some, ltb,
  if◌then◌else◌, arith,
}
use lowping.Base.Dict.{Dict, NodupKeys, get, remove, get-remove, remove-NodupKeys}
use lowping.Bridge.{
  SessionKey, key_beq, key_beq_iff, key_eq, Session, BridgeState, idle_keys, remove_all, reap,
}
use lowping.Bridge.Table.{IsTable}

abbrev listed : SessionKey → List SessionKey → Bool
listed k [] = false
listed k (j ∷ js) = key_beq k j || listed k js

get-remove_all :
    (k : SessionKey) (ks : List SessionKey) (m : Dict SessionKey Session)
    → NodupKeys m
    → get k (remove_all ks m) ≡ (if listed k ks then none else get k m)
unfolding remove_all
get-remove_all k [] m u = refl
get-remove_all k (j ∷ js) m u =
    ground (arith, get-remove_all k js (remove j m) (remove-NodupKeys j m u), get-remove j k m u)

-- The test of the reaper on an entry.
abbrev pub is_idle : (SessionKey → Bool) → ℕ → ℕ → SessionKey → Session → Bool
is_idle locked idle at key sess = not (locked key) && ltb (sess.last_active + idle) at

abbrev idle_entry : (SessionKey → Bool) → ℕ → ℕ → SessionKey → Option Session → Bool
idle_entry locked idle at key none = false
idle_entry locked idle at key (some sess) = is_idle locked idle at key sess

listed-idle_keys :
    (locked : SessionKey → Bool) (idle at : ℕ) (k : SessionKey) (m : Dict SessionKey Session)
    → NodupKeys m
    → listed k (idle_keys locked idle at m) ≡ idle_entry locked idle at k (get k m)
unfolding idle_keys get
listed-idle_keys locked idle at k [] u = refl
listed-idle_keys locked idle at k ((j, sess) ∷ rest) u =
    ground (arith, key_beq_iff j k, key_beq_iff k j, listed-idle_keys locked idle at k rest u.1)

-- A tick takes away exactly the sessions that nobody holds and that were last active more than the
-- idle timeout ago; every other session stays as it was.
pub get-reap :
    (locked : SessionKey → Bool) (at : ℕ) (st : BridgeState) (key : SessionKey)
    → IsTable st
    → get key (reap locked at st).sessions ≡ elim (get key st.sessions) [
      | none ↦ none
      | some sess ↦
          if is_idle locked st.config.idle_timeout_secs at key sess then none else some sess
    ]
unfolding reap
get-reap locked at st key v =
    let idle = st.config.idle_timeout_secs in
    let keys = idle_keys locked idle at st.sessions in
    ground (
      arith,
      get-remove_all key keys st.sessions v.unique,
      listed-idle_keys locked idle at key st.sessions v.unique,
    )
