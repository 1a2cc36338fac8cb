-- ===== src/Bridge/Run.antt =====
-- The bridge under any sequence of datagrams, downstream packets and ticks of the reaper, each handled
-- whole before the next. `Races` has what happens where handlers overlap.
use lowping.Base.{ℕ, ◌≤◌, ◌≡◌, refl, ap, ◌∙◌, Bool, List, [], ◌∷◌, arith, length}
use lowping.Base.Bytes.{Bytes}
use lowping.Base.Int.{ℤ}
use lowping.Crypto.{Suite}
use lowping.Net.{SocketAddr}
use lowping.Bridge.{
  SessionKey, BridgeConfig, BridgeState, Network, DownstreamPacket, handle_packet,
  accept_new_session, forward_data, register, send_downstream, reap,
}
use lowping.Bridge.Table.{IsTable, handle_packet-IsTable, downstream-IsTable, reap-IsTable}

pub data Event : Type 0 where
  datagram : Network → SocketAddr → Bytes → ℤ → ℕ → Event
  downstream : DownstreamPacket → Event
  tick : (SessionKey → Bool) → ℕ → Event

-- The state that `run` of server.rs starts from.
unfoldable pub start : BridgeConfig → Bytes → Bytes → BridgeState
start config bridge_secret backend_pubkey = record {
  sessions = [];
  config = config;
  bridge_secret = bridge_secret;
  backend_pubkey = backend_pubkey;
}

module _ (crypto : Suite) where
  unfoldable pub step : BridgeState → Event → BridgeState
  step st (datagram net peer pkt now at) = (handle_packet crypto net st peer pkt now at).1
  step st (downstream pkt) = (send_downstream crypto st pkt).1
  step st (tick locked at) = reap locked at st

  unfoldable pub run : BridgeState → List Event → BridgeState
  run st [] = st
  run st (e ∷ es) = run (step st e) es

  step-IsTable : (st : BridgeState) (e : Event) → IsTable st → IsTable (step st e)
  unfolding step
  step-IsTable st (datagram net peer pkt now at) v =
      handle_packet-IsTable crypto net st peer pkt now at v
  step-IsTable st (downstream pkt) v = downstream-IsTable crypto st pkt v
  step-IsTable st (tick locked at) v = reap-IsTable locked at st v

  run-keeps : (st : BridgeState) (es : List Event) → IsTable st → IsTable (run st es)
  unfolding run
  run-keeps st [] v = v
  run-keeps st (e ∷ es) v = run-keeps (step st e) es (step-IsTable st e v)

  -- No handler touches the configuration.
  step-config : (st : BridgeState) (e : Event) → (step st e).config ≡ st.config
  unfolding step handle_packet accept_new_session forward_data register send_downstream reap
  step-config st (datagram net peer pkt now at) = ground arith
  step-config st (downstream pkt) = ground arith
  step-config st (tick locked at) = refl

  run-config : (st : BridgeState) (es : List Event) → (run st es).config ≡ st.config
  unfolding run
  run-config st [] = refl
  run-config st (e ∷ es) = run-config (step st e) es ∙ step-config st e

  -- From the empty table, after any events handled one by one, each key has one session and there
  -- are no more than the configured `max_sessions`.
  pub run-IsTable :
      (config : BridgeConfig) (secret backend : Bytes) (es : List Event)
      → IsTable (run (start config secret backend) es)
        × (length (run (start config secret backend) es).sessions ≤ config.max_sessions)
  unfolding start
  run-IsTable config secret backend es =
      let st : BridgeState = start config secret backend in
      let v = run-keeps st es (record { unique = tt; bounded = omega arith }) in
      (v, rw (ap (λ (c : BridgeConfig). c.max_sessions) (run-config st es)) at v.bounded)
