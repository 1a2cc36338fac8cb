-- ===== src/Tests/Modes.antt =====
-- The client's modes at one configuration, and a TCP connection at three reads.
use lowping.Base.{
  ℕ, ◌≡◌, refl, true, List, [], ◌∷◌, map, length, take, All, Option, none, some, ok, arith,
}
use lowping.Base.Bytes.{Bytes}
use lowping.Base.Int.{ℤ, pos}
use lowping.Base.Dict.{get, insert}
use lowping.Base.Eq.{nat_eq, list_eq}
use lowping.Net.{IpAddr, v4, SocketAddr}
use lowping.Net.Show.{codes}
use lowping.Capture.{RedirectRule, passthrough, rewrite_to}
use lowping.Capture.Filter.{build_filter}
use lowping.Capture.Switch.{WinDivertCapture, with_rules, with_resolver, start}
use lowping.Client.Router.{
  BridgeEntry, new_router, seed, record_client_to_bridge, resolve, pick, decide, choose,
  best_bridge, candidate, direct_estimate,
}
use lowping.Client.Router.Millis.{toy_float}
use lowping.Client.Modes.{
  Rule, Config, SmartRoutingConfig, Smart, smart_capture, estimate, listen_addr, capture_rules,
  run_smart_mode, run_with_tui, start_smart,
}
use lowping.Client.Modes.Seeding.{
  resolve_all, Served, run_smart_mode-passthrough, run_with_tui-Served,
}
use lowping.Crypto.Toys.{toy_suite}
use lowping.Bridge.{BridgeState, Session, tcp_half}
use lowping.Client.{OpenedTunnel}
use lowping.Client.Tcp.{Read, received, read_timed_out, forward_stream}
use lowping.Client.Tcp.Stream.{Joined, deliver, deliver-forward_stream}
use lowping.Tests.World.{client_addr, bridge, busy_key, network}

abbrev listen : SocketAddr
listen = record { ip = v4 (127 ∷ 0 ∷ 0 ∷ 1 ∷ []); port = 9000 }

abbrev game_server : IpAddr
game_server = v4 (18 ∷ 88 ∷ 19 ∷ 234 ∷ [])

abbrev rule : Rule
rule = record {
  listen = listen;
  bridge = client_addr;
  bridge_x25519_pubkey_hex = [];
  license_token = [];
  dest_ip = game_server;
  dest_port = 7777;
  protocol = codes "udp";
  udp_idle_secs = 90;
  capture = true;
  capture_dst_port_lo = none;
  capture_dst_port_hi = some 7800;
  capture_dst_ip = none;
}

abbrev cap : WinDivertCapture (List RedirectRule)
cap = with_rules (capture_rules (rule ∷ [])) []

abbrev dallas : BridgeEntry toy_float
dallas = record {
  name = codes "dallas";
  endpoint = client_addr;
  bridge_x25519_pubkey_hex = [];
  license_token = [];
  listen_port = 9701;
  region_rtt_ms = (codes "us-east-1", some 1) ∷ [];
}

abbrev cfg : SmartRoutingConfig toy_float some
cfg = record { bridges = dallas ∷ []; direct_rtt_ms = []; margin_ms = some 2 }

abbrev config : Config toy_float some
config = record { rules = []; smart_routing = some cfg }

abbrev region_for : IpAddr → Option Bytes
region_for ip = some (codes "us-east-1")

abbrev packets : List (SocketAddr × ℕ)
packets =
    (record { ip = game_server; port = 7790 }, 5)
    ∷ (record { ip = game_server; port = 7790 }, 70)
    ∷ []

abbrev smart : Smart toy_float some
smart = record {
  capture = smart_capture toy_float some cfg (new_router toy_float (some 2) cfg.bridges);
  router = (start_smart toy_float some cfg).0;
  listeners = (start_smart toy_float some cfg).1;
}

smart_runs : run_smart_mode toy_float some cfg none ≡ ok smart
unfolding run_smart_mode with_resolver start build_filter
smart_runs = refl

run_smart_mode-passthrough_example :
    All
      (λ answer. answer ≡ some passthrough)
      (resolve_all toy_float some region_for smart.capture.resolver packets)
run_smart_mode-passthrough_example =
    run_smart_mode-passthrough toy_float some region_for cfg none smart packets smart_runs

abbrev shown : Smart toy_float some
shown =
    let seeded =
      seed toy_float (estimate toy_float some) cfg.bridges
        (new_router toy_float (some 2) cfg.bridges) in
    record {
      capture = record smart.capture { resolver = record { router = seeded; direct_rtt_ms = [] } };
      router = seeded;
      listeners = (dallas, listen_addr toy_float some dallas) ∷ [];
    }

shown_runs : run_with_tui toy_float some config none ≡ ok shown
unfolding run_with_tui with_resolver start build_filter
shown_runs = refl

run_with_tui-Served_example :
    All
      (Served toy_float some region_for shown.listeners)
      (resolve_all toy_float some region_for shown.capture.resolver packets)
run_with_tui-Served_example =
    run_with_tui-Served toy_float some region_for config cfg none shown packets refl shown_runs

-- The resolver of this mode does redirect.
redirected :
    resolve_all toy_float some region_for shown.capture.resolver packets
    ≡ some (rewrite_to (record { ip = v4 (127 ∷ 0 ∷ 0 ∷ 1 ∷ []); port = 9701 }))
      ∷ some (rewrite_to (record { ip = v4 (127 ∷ 0 ∷ 0 ∷ 1 ∷ []); port = 9701 }))
      ∷ []
unfolding resolve_all resolve pick decide choose best_bridge candidate get insert seed
    record_client_to_bridge estimate new_router direct_estimate
redirected = refl

-- A tunnel, the bridge's session for it, and a stream of two chunks.
abbrev tunnel : OpenedTunnel
tunnel = record { udp_to_bridge = 4; aead_key = 5 ∷ []; connection_id = 77 }

abbrev tcp_session : Session
tcp_session = record {
  aead_key = 5 ∷ [];
  tx_sequence = 0;
  last_active = 40;
  dest_writer = tcp_half 8;
}

abbrev tcp_bridge : BridgeState
tcp_bridge = record bridge { sessions = (busy_key, tcp_session) ∷ [] }

abbrev reads : List Read
reads = received (1 ∷ 2 ∷ []) true ∷ read_timed_out ∷ received (3 ∷ []) true ∷ received [] true ∷ []

clock : ℕ → ℤ × ℕ
clock n = (pos 2000, 60)

joined : Joined toy_suite network client_addr clock tunnel (tcp_half 8) tcp_bridge
unfolding get
joined = (tcp_session, refl, refl, refl)

deliver-forward_stream_example :
    let (frames, end) = forward_stream toy_suite tunnel 0 reads in
    (deliver toy_suite network client_addr clock frames tcp_bridge
      ≡ map (λ chunk. (tcp_half 8, chunk)) (take (length frames) ((1 ∷ 2 ∷ []) ∷ (3 ∷ []) ∷ [])))
    × (end ≡ ok tt → length frames ≡ 2)
deliver-forward_stream_example =
    deliver-forward_stream toy_suite network client_addr clock reads tunnel 0 (tcp_half 8)
      tcp_bridge (omega arith) joined (λ payload. refl)
