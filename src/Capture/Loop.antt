-- ===== src/Capture/Loop.antt =====
-- `run_capture_loop` of crates/gr-capture/src/windivert_backend.rs. A round has the flag `running` as it is
-- read, the clock at the two places, and what the driver gives. The result of a send changes nothing.
pub mod Flows
pub mod Tally
use Prim.Native.String.{String}
use lowping.Base.{
  ℕ, ◌+◌, ◌≡◌, Bool, List, [], ◌∷◌, Option, none, some, Result, ok, err, ltb, if◌then◌else◌,
}
use lowping.Base.Bytes.{Bytes}
use lowping.Base.Eq.{nat_eq}
use lowping.Net.{SocketAddr}
use lowping.Capture.{
  Protocol, RouteAction, CaptureState, CaptureError, driver_open, reap_flows, capture_packet,
}

pub record Round : Type 0 where
  pub running : Bool
  pub top : ℕ
  pub at : ℕ
  -- The direction and the bytes; `none` is a read error.
  pub received : Option (Bool × Bytes)

pub record LoopState : Type 0 where
  pub capture : CaptureState
  pub last_reap : ℕ

-- The reaper's turn, at most every 15 seconds.
unfoldable pub reap_turn : ℕ → ℕ → LoopState → LoopState
reap_turn flow_idle top st =
    if ltb (st.last_reap + 15) top
    then record {
      capture = record st.capture { flows = reap_flows flow_idle top st.capture.flows };
      last_reap = top;
    }
    else st

module _ (recalculate_checksums : Bytes → Option Bytes)
    (resolve : SocketAddr → Protocol → RouteAction) (flow_idle : ℕ) where
  -- A round that runs: what it sends on, and the state after it.
  unfoldable pub round : LoopState → Round → Option Bytes × LoopState
  round st r =
      let st' = reap_turn flow_idle r.top st in
      elim r.received [
        | none ↦ (none, st')
        | some (outbound, bytes) ↦
            let (sent, capture) =
              capture_packet recalculate_checksums resolve st'.capture outbound r.at bytes in
            (sent, record st' { capture = capture })
      ]

  unfoldable pub run_rounds : LoopState → List Round → List (Option Bytes) × LoopState
  run_rounds st [] = ([], st)
  run_rounds st (r ∷ rounds) =
      let (sent, st') = round st r in
      let (rest, last) = run_rounds st' rounds in
      if r.running then (sent ∷ rest, last) else ([], st)

  -- The driver is opened first; the answer is `none`, or the message of its error.
  unfoldable pub run_capture_loop :
      Option String
      → LoopState
      → List Round
      → Result CaptureError (Unit {0}) × List (Option Bytes) × LoopState
  run_capture_loop (some message) st rounds = (err (driver_open message), [], st)
  run_capture_loop none st rounds = let (sent, last) = run_rounds st rounds in (ok tt, sent, last)
