-- ===== src/Capture.antt =====
-- crates/gr-capture/src: the redirect rules of lib.rs and the destination NAT of windivert_backend.rs.
-- A packet is its bytes, at least up to the ports. The driver's checksum routine is a parameter, the
-- resolver is a function, and the monotonic clock is the argument `at`.
pub mod Resolver
pub mod Packet
pub mod Nat
pub mod Reaping
pub mod Filter
pub mod Switch
pub mod Loop
use Prim.Native.Nat.{bit_and}
use Prim.Native.String.{String}
use lowping.Base.{
  ℕ, ◌+◌, ◌*◌, ◌/◌, ◌%◌, ◌^◌, ◌<◌, ◌≡◌, Bool, true, false, ◌&&◌, not, List, [], ◌∷◌, length, take,
  drop, get_or, Option, none, some, Result, ok, err, ◌==◌, ltb, leb, if◌then◌else◌,
}
use lowping.Base.Bytes.{Bytes, to_be, from_be}
use lowping.Base.Eq.{nat_eq}
use lowping.Base.Dict.{Dict, get, insert, retain}
use lowping.Base.Patch.{patch}
use lowping.Net.{IpAddr, v4, v6, ip_beq, SocketAddr}

pub data Protocol : Type 0 where
  tcp udp : Protocol

abbrev pub protocol_beq : Protocol → Protocol → Bool
protocol_beq tcp tcp = true
protocol_beq tcp udp = false
protocol_beq udp tcp = false
protocol_beq udp udp = true

pub record RedirectRule : Type 0 where
  pub protocol : Protocol
  pub dst_ip : IpAddr
  pub dst_port_lo : ℕ
  pub dst_port_hi : ℕ
  pub redirect_to_ip : IpAddr
  pub redirect_to_port : ℕ

pub data RouteAction : Type 0 where
  passthrough : RouteAction
  rewrite_to : SocketAddr → RouteAction

-- `FixedResolver::resolve`: the condition of its loop, and the loop.
abbrev pub rule_matches : SocketAddr → Protocol → RedirectRule → Bool
rule_matches dst protocol r =
    protocol_beq r.protocol protocol
    && ip_beq r.dst_ip dst.ip
    && leb r.dst_port_lo dst.port
    && leb dst.port r.dst_port_hi

abbrev pub redirect_target : RedirectRule → SocketAddr
redirect_target r = record { ip = r.redirect_to_ip; port = r.redirect_to_port }

unfoldable pub resolve_fixed : List RedirectRule → SocketAddr → Protocol → RouteAction
resolve_fixed [] dst protocol = passthrough
resolve_fixed (r ∷ rules) dst protocol =
    if rule_matches dst protocol r
    then rewrite_to (redirect_target r)
    else resolve_fixed rules dst protocol

-- One flow of the NAT table, which has the game's source port for key.
pub record FlowEntry : Type 0 where
  pub orig_dst_ip : Bytes
  pub orig_dst_port : ℕ
  pub redirect_target : SocketAddr
  pub last_seen : ℕ

pub record Stats : Type 0 where
  pub outbound_redirected : ℕ
  pub inbound_rewritten : ℕ
  pub dropped_unparseable : ℕ

pub record RedirectStats : Type 0 where
  pub outbound_redirected : ℕ
  pub inbound_rewritten : ℕ
  pub dropped_unparseable : ℕ
  pub active_flows : ℕ

-- `u16::from_be_bytes` of the two bytes there; every use stands behind a length check.
abbrev pub u16_at : ℕ → Bytes → ℕ
u16_at off bytes = from_be (take 2 (drop off bytes))

-- The guards of `process_packet`: the protocol and the length of the IP header.
unfoldable pub parse_packet : Bytes → Option (Protocol × ℕ)
parse_packet bytes =
    let version = get_or bytes 0 0 / 16 in
    let ihl = bit_and (get_or bytes 0 0) 0x0F in
    let proto = get_or bytes 9 0 in
    if ltb (length bytes) 28
    then none
    else if not (version == 4)
    then none
    else if ltb ihl 5
    then none
    else if ltb (length bytes) (ihl * 4 + 8)
    then none
    else if proto == 6
    then some (tcp, ihl * 4)
    else if proto == 17
    then some (udp, ihl * 4)
    else none

-- `process_packet` behind its guards, outbound: the destination is exchanged, and the flow recorded.
unfoldable pub process_outbound :
    (SocketAddr → Protocol → RouteAction)
    → Protocol
    → ℕ
    → ℕ
    → Dict ℕ FlowEntry
    → Bytes
    → Option Bytes × Dict ℕ FlowEntry
process_outbound resolve proto ip_header_len at flows bytes =
    let dst_ip = take 4 (drop 16 bytes) in
    let src_port = u16_at ip_header_len bytes in
    let dst_port = u16_at (ip_header_len + 2) bytes in
    elim (resolve (record { ip = v4 dst_ip; port = dst_port }) proto) [
      | passthrough ↦ (none, flows)
      | rewrite_to target ↦ elim target.ip [
        | v6 octets ↦ (none, flows)
        | v4 octets ↦ (
          some (patch (ip_header_len + 2) (to_be 2 target.port) (patch 16 octets bytes)),
          insert src_port
              (record {
                orig_dst_ip = dst_ip;
                orig_dst_port = dst_port;
                redirect_target = target;
                last_seen = at;
              })
              flows,
        )
      ]
    ]

-- The same inbound: the source becomes the flow's original destination, and the flow is touched.
unfoldable pub process_inbound : ℕ → ℕ → Dict ℕ FlowEntry → Bytes → Option Bytes × Dict ℕ FlowEntry
process_inbound ip_header_len at flows bytes =
    let dst_port = u16_at (ip_header_len + 2) bytes in
    elim (get dst_port flows) [
      | none ↦ (none, flows)
      | some entry ↦ (
        some (patch ip_header_len (to_be 2 entry.orig_dst_port) (patch 12 entry.orig_dst_ip bytes)),
        insert dst_port (record entry { last_seen = at }) flows,
      )
    ]

unfoldable pub process_packet :
    (SocketAddr → Protocol → RouteAction)
    → Bool
    → ℕ
    → Dict ℕ FlowEntry
    → Bytes
    → Option Bytes × Dict ℕ FlowEntry
process_packet resolve outbound at flows bytes = elim (parse_packet bytes) [
  | none ↦ (none, flows)
  | some (proto, ip_header_len) ↦
      if outbound
      then process_outbound resolve proto ip_header_len at flows bytes
      else process_inbound ip_header_len at flows bytes
]

-- `flow_origin`
unfoldable pub flow_origin : Dict ℕ FlowEntry → ℕ → Option SocketAddr
flow_origin flows game_src_port = elim (get game_src_port flows) [
  | none ↦ none
  | some e ↦ some (record { ip = v4 e.orig_dst_ip; port = e.orig_dst_port })
]

-- `at` is the time, and the source takes the idle time from it: `Instant` panics there on a clock that
-- has not run for so long, which is left out.
unfoldable pub reap_flows : ℕ → ℕ → Dict ℕ FlowEntry → Dict ℕ FlowEntry
reap_flows idle at flows = retain (λ _ e. leb at (e.last_seen + idle)) flows

-- What one round of the capture loop keeps.
pub record CaptureState : Type 0 where
  pub flows : Dict ℕ FlowEntry
  pub stats : Stats

abbrev pub stats_of : CaptureState → RedirectStats
stats_of st = record {
  outbound_redirected = st.stats.outbound_redirected;
  inbound_rewritten = st.stats.inbound_rewritten;
  dropped_unparseable = st.stats.dropped_unparseable;
  active_flows = length st.flows;
}

-- The loop's body behind `recv`: what is sent on, and the state after it. The counters wrap.
module _ (recalculate_checksums : Bytes → Option Bytes) where
  unfoldable pub capture_packet :
      (SocketAddr → Protocol → RouteAction)
      → CaptureState
      → Bool
      → ℕ
      → Bytes
      → Option Bytes × CaptureState
  capture_packet resolve st outbound at bytes =
      let (modified, flows) = process_packet resolve outbound at st.flows bytes in
      let s = st.stats in
      elim modified [
        | none ↦ (
          some bytes,
          record {
            flows = flows;
            stats = record s { dropped_unparseable = (s.dropped_unparseable + 1) % 2 ^ 64 };
          },
        )
        | some out ↦ elim (recalculate_checksums out) [
          | none ↦ (none, record st { flows = flows })
          | some wire ↦ (
            some wire,
            record {
              flows = flows;
              stats =
                  if outbound
                  then record s { outbound_redirected = (s.outbound_redirected + 1) % 2 ^ 64 }
                  else record s { inbound_rewritten = (s.inbound_rewritten + 1) % 2 ^ 64 };
            },
          )
        ]
      ]

pub data CaptureError : Type 0 where
  driver_open : String → CaptureError
  filter_syntax : String → CaptureError
  io : CaptureError
  unsupported : CaptureError
  other : String → CaptureError

abbrev pub no_targets : CaptureError
no_targets = other "no redirect targets — at least one is needed to capture inbound responses"
