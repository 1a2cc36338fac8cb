-- ===== src/Examples/Fnscan/Suggest.antt =====
-- What the resolver answers for the rules that are suggested after a scan.
use lowping.Base.{ℕ, ◌≡◌, Bool, true, false, ◌||◌, List, [], ◌∷◌, map, none, some, ◌==◌}
use lowping.Base.Bytes.{Bytes}
use lowping.Base.Eq.{nat_eq}
use lowping.Base.Dict.{Dict, get}
use lowping.Net.{v4, ip_eq, SocketAddr}
use lowping.Capture.{Protocol, RouteAction, resolve_fixed}
use lowping.Client.Modes.{Rule, capture_rules}
use lowping.Examples.Fnscan.{Flow, flow_eq, Host, host_eq, host_of, Suggestion, proto_name}

-- The port is one of the list.
abbrev pub has : ℕ → List ℕ → Bool
has p [] = false
has p (q ∷ qs) = q == p || has p qs

-- A flow's port stands among its host's.
abbrev Listed : Flow → Dict Host (List ℕ) → Type 0
Listed k d = (ports : List ℕ) × (get (host_of k) d ≡ some ports) × (has k.remote.port ports ≡ true)

-- Every host has a port.
abbrev NonEmpty : List ℕ → Type 0
NonEmpty qs = (p : ℕ) × (has p qs ≡ true)

-- A suggestion as a rule, once the operator has put a bridge, its key and a token for the placeholders.
-- Every suggestion has the same `listen`.
module _ (bridge : SocketAddr) (key token : Bytes) where
  abbrev pub local : SocketAddr
  local = record { ip = v4 (127 ∷ 0 ∷ 0 ∷ 1 ∷ []); port = 9700 }

  abbrev pub rule_of : Suggestion → Rule
  rule_of s = record {
    listen = local;
    bridge = bridge;
    bridge_x25519_pubkey_hex = key;
    license_token = token;
    dest_ip = s.dest_ip;
    dest_port = s.dest_port;
    protocol = s.protocol;
    udp_idle_secs = 90;
    capture = true;
    capture_dst_port_lo = some s.capture_dst_port_lo;
    capture_dst_port_hi = some s.capture_dst_port_hi;
    capture_dst_ip = none;
  }

  abbrev pub resolves : List Suggestion → SocketAddr → Protocol → RouteAction
  resolves ss = resolve_fixed (capture_rules (map rule_of ss))

  abbrev for_host : Flow → ℕ → ℕ → Suggestion
  for_host k lo hi = record {
    dest_ip = k.remote.ip;
    dest_port = lo;
    protocol = proto_name k.proto;
    capture_dst_port_lo = lo;
    capture_dst_port_hi = hi;
  }
