-- ===== src/Capture/Loop/Tally.antt =====
-- What the counters of the capture loop say of a run.
use lowping.Base.{ℕ, ◌+◌, ◌≡◌, Bool, List, [], ◌∷◌, Option, none, some, if◌then◌else◌}
use lowping.Base.Bytes.{Bytes}
use lowping.Base.Eq.{nat_eq}
use lowping.Base.Dict.{Dict}
use lowping.Net.{SocketAddr}
use lowping.Capture.{Protocol, RouteAction, FlowEntry, Stats, process_packet}
use lowping.Capture.Loop.{Round, LoopState, reap_turn, round}

-- What becomes of a round: nothing was read, the packet was passed on as it was, rewritten on the way
-- out or in, or lost for its checksums.
pub data Fate : Type 0 where
  nothing passed redirected answered lost : Fate

abbrev pub is_passed : Fate → ℕ
is_passed nothing = 0
is_passed passed = 1
is_passed redirected = 0
is_passed answered = 0
is_passed lost = 0

abbrev pub is_redirected : Fate → ℕ
is_redirected nothing = 0
is_redirected passed = 0
is_redirected redirected = 1
is_redirected answered = 0
is_redirected lost = 0

abbrev pub is_answered : Fate → ℕ
is_answered nothing = 0
is_answered passed = 0
is_answered redirected = 0
is_answered answered = 1
is_answered lost = 0

abbrev pub times : (Fate → ℕ) → List Fate → ℕ
times kind [] = 0
times kind (f ∷ fates) = kind f + times kind fates

abbrev pub sent_on : List (Option Bytes) → ℕ
sent_on [] = 0
sent_on (none ∷ sent) = sent_on sent
sent_on (some wire ∷ sent) = 1 + sent_on sent

-- How many packets the counters account for.
abbrev pub counted : Stats → ℕ
counted s = s.outbound_redirected + s.inbound_rewritten + s.dropped_unparseable

-- The counters have grown by these fates.
pub record Grown (before after : Stats) (fates : List Fate) : Type 0 where
  pub out : after.outbound_redirected ≡ before.outbound_redirected + times is_redirected fates
  pub inward : after.inbound_rewritten ≡ before.inbound_rewritten + times is_answered fates
  pub unchanged : after.dropped_unparseable ≡ before.dropped_unparseable + times is_passed fates

module _ (recalculate_checksums : Bytes → Option Bytes)
    (resolve : SocketAddr → Protocol → RouteAction) where
  -- The fate of a packet, by the NAT on the flow table alone.
  unfoldable pub packet_fate : Bool → ℕ → Dict ℕ FlowEntry → Bytes → Fate
  packet_fate outbound at flows pkt = elim (process_packet resolve outbound at flows pkt).0 [
    | none ↦ passed
    | some out ↦ elim (recalculate_checksums out) [
      | none ↦ lost
      | some wire ↦ if outbound then redirected else answered
    ]
  ]

  module _ (idle : ℕ) where
    unfoldable pub round_fate : LoopState → Round → Fate
    round_fate st r = elim r.received [
      | none ↦ nothing
      | some (outbound, pkt) ↦ packet_fate outbound r.at (reap_turn idle r.top st).capture.flows pkt
    ]

    -- The fates of the rounds of a run.
    unfoldable pub fates : LoopState → List Round → List Fate
    fates st [] = []
    fates st (r ∷ rounds) =
        let rest = fates (round recalculate_checksums resolve idle st r).1 rounds in
        if r.running then round_fate st r ∷ rest else []
