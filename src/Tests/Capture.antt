-- ===== src/Tests/Capture.antt =====
-- Runs of the capture: the NAT, the filter, the counters and the loop's flows.
use lowping.Base.{
  ℕ, ◌/◌, ◌%◌, ◌≡◌, refl, true, false, List, All, [], ◌∷◌, ◌++◌, Option, none, some, ok, arith,
  replicate,
}
use lowping.Base.Bytes.{Bytes, to_be, from_be}
use lowping.Base.Dict.{Dict, get, insert}
use lowping.Base.Eq.{nat_eq}
use lowping.Base.Patch.{patch}
use lowping.Net.{v4, SocketAddr}
use lowping.Capture.{
  Protocol, udp, RouteAction, rewrite_to, RedirectRule, FlowEntry, parse_packet, process_packet,
  process_outbound, process_inbound,
}
use lowping.Capture.Filter.{build_filter}
use lowping.Capture.Filter.Language.{Expr, View, render, readable, holds, wanted}
use lowping.Capture.Filter.Meaning.{build_filter-wanted}
use lowping.Net.Show.{codes, show_nat, show_ipv4, digits, join}
use lowping.Capture.Packet.{src_addr, dst_addr}
use lowping.Capture.Nat.{IsTarget, IsFlow, process_packet-IsFlow, response_from_server}
use lowping.Capture.Loop.{Round, LoopState, run_rounds}
use lowping.Capture.Loop.Flows.{Fresh, Spares, response_after-run_rounds}

-- A UDP packet of 28 bytes: from a host and a port, to a host and a port.
abbrev packet : Bytes → ℕ → Bytes → ℕ → Bytes
packet src sport dst dport =
    (0x45 ∷ replicate 8 0)
    ++ (17 ∷ 0 ∷ 0 ∷ src)
    ++ dst
    ++ (sport / 256 ∷ sport % 256 ∷ dport / 256 ∷ dport % 256 ∷ 0 ∷ 8 ∷ 0 ∷ 0 ∷ [])

abbrev game : Bytes
game = 192 ∷ 168 ∷ 0 ∷ 2 ∷ []

abbrev server : Bytes
server = 18 ∷ 88 ∷ 19 ∷ 234 ∷ []

abbrev local : Bytes
local = 127 ∷ 0 ∷ 0 ∷ 1 ∷ []

abbrev target : SocketAddr
target = record { ip = v4 local; port = 9700 }

abbrev resolver : SocketAddr → Protocol → RouteAction
resolver d p = rewrite_to target

abbrev no_flows : Dict ℕ FlowEntry
no_flows = []

abbrev request : Bytes
request = packet game 5555 server 22222

abbrev response : Bytes
response = packet local 9700 game 5555

abbrev done : Option Bytes × Dict ℕ FlowEntry
done = process_packet resolver true 10 no_flows request

abbrev bytes_of : Option Bytes → Bytes
bytes_of none = []
bytes_of (some bs) = bs

IsTarget-fits :
    (d : SocketAddr) (p : Protocol) (a : SocketAddr) → resolver d p ≡ rewrite_to a → IsTarget a
IsTarget-fits d p a e = ground arith

requests : process_packet resolver true 10 no_flows request ≡ (some (bytes_of done.0), done.1)
unfolding process_packet process_outbound parse_packet patch to_be from_be insert
requests = refl

IsFlow-fits : (p : ℕ) (e : FlowEntry) → get p done.1 ≡ some e → IsFlow e
unfolding get
IsFlow-fits =
    process_packet-IsFlow resolver true 10 no_flows done.1 request (bytes_of done.0) (ground arith)
      (λ p e h. absurd cc) requests

abbrev back : Option Bytes × Dict ℕ FlowEntry
back = process_packet resolver false 11 done.1 response

answers : process_packet resolver false 11 done.1 response ≡ (some (bytes_of back.0), back.1)
unfolding process_packet process_outbound process_inbound parse_packet patch to_be from_be insert
    get
answers = refl

same_port : (dst_addr response).port ≡ (src_addr request).port
unfolding from_be
same_port = refl

response_from_server_example :
    (src_addr (bytes_of back.0) ≡ dst_addr request)
    × (dst_addr (bytes_of back.0) ≡ dst_addr response)
response_from_server_example =
    response_from_server resolver 10 11 no_flows done.1 back.1 done.1 request (bytes_of done.0)
      response (bytes_of back.0) IsTarget-fits IsFlow-fits requests refl same_port answers

abbrev rule : RedirectRule
rule = record {
  protocol = udp;
  dst_ip = v4 server;
  dst_port_lo = 7777;
  dst_port_hi = 30000;
  redirect_to_ip = v4 local;
  redirect_to_port = 9000;
}

abbrev server_addr : SocketAddr
server_addr = record { ip = v4 server; port = 22222 }

abbrev bridge_endpoint : SocketAddr
bridge_endpoint = record { ip = v4 server; port = 51820 }

build_filter-wanted_example :
    (e : Expr) × (build_filter (target ∷ []) (bridge_endpoint ∷ []) ≡ ok (render e []))
    × (readable e ≡ true)
    × ((v : View) → holds e v ≡ wanted (target ∷ []) (bridge_endpoint ∷ []) v)
build_filter-wanted_example = build_filter-wanted (target ∷ []) (bridge_endpoint ∷ []) (omega arith)

filter_text :
    build_filter (target ∷ []) (bridge_endpoint ∷ [])
    ≡ ok (
        codes
          "(udp and outbound and not (ip.DstAddr == 18.88.19.234 or ip.DstAddr == 127.0.0.1)) or (udp and inbound and ((ip.SrcAddr == 127.0.0.1 and udp.SrcPort == 9700)))")
unfolding build_filter show_ipv4 show_nat digits join
filter_text = refl

-- Two rounds with turns of the reaper: a response, and a read error.
abbrev looping : LoopState
looping = record {
  capture = record {
    flows = done.1;
    stats = record { outbound_redirected = 1; inbound_rewritten = 0; dropped_unparseable = 0 };
  };
  last_reap = 0;
}

abbrev rounds : List Round
rounds =
    record { running = true; top = 20; at = 20; received = some (false, response) }
    ∷ record { running = true; top = 100; at = 100; received = none }
    ∷ []

abbrev last : LoopState
last = (run_rounds some resolver 120 looping rounds).1

fresh : Fresh 120 5555 130 server 22222 done.1
unfolding process_packet process_outbound parse_packet patch to_be from_be insert get
fresh = record {
  unique = (refl, tt);
  entry = record {
    orig_dst_ip = server;
    orig_dst_port = 22222;
    redirect_target = target;
    last_seen = 10;
  };
  found = refl;
  dst_ip = refl;
  dst_port = refl;
  fresh = omega arith;
}

spared : All (Spares 120 5555 130 server 22222 resolver some) rounds
spared = (
  (omega arith, omega arith, λ outbound pkt got out. absurd cc),
  ((omega arith, omega arith, λ outbound pkt got out. absurd cc), tt),
)

passes_guards : parse_packet response ≡ some (udp, 20)
unfolding parse_packet
passes_guards = refl

port_5555 : (dst_addr response).port ≡ 5555
unfolding from_be
port_5555 = refl

response_after-run_rounds_example :
    (out : Bytes) × (flows : Dict ℕ FlowEntry) × (process_packet resolver false 110
        last.capture.flows response
      ≡ (some out, flows))
    × (src_addr out ≡ record { ip = v4 server; port = 22222 })
    × (dst_addr out ≡ dst_addr response)
response_after-run_rounds_example =
    response_after-run_rounds 120 5555 130 server 22222 resolver some looping rounds 110 20 udp
      response spared fresh refl (omega arith) passes_guards port_5555
