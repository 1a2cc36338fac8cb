-- ===== src/Capture/Reaping.antt =====
-- The reaping of flows.
use lowping.Base.{ℕ, ◌+◌, ◌≡◌, none, some, if◌then◌else◌, leb}
use lowping.Base.Eq.{nat_eq}
use lowping.Base.Dict.{Dict, NodupKeys, get, get-retain}
use lowping.Capture.{FlowEntry, reap_flows}

-- The reaper keeps, with their entries, the flows that were seen within the idle time, and no others.
pub get-reap_flows :
    (idle at port : ℕ) (flows : Dict ℕ FlowEntry)
    → NodupKeys flows
    → get port (reap_flows idle at flows) ≡ elim (get port flows) [
      | none ↦ none
      | some e ↦ if leb at (e.last_seen + idle) then some e else none
    ]
unfolding reap_flows
get-reap_flows idle at port flows u = get-retain _ port flows u
