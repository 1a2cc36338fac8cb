-- ===== src/Capture/Nat.antt =====
-- The destination NAT: what an outbound packet becomes, and that the response to it comes back from
-- where the game wanted to send it.
use lowping.Base.{
  ℕ, ◌+◌, ◌^◌, ◌<◌, ◌≡◌, ◌⊎◌, refl, ap, Bool, true, false, length, take, drop, some, Option-cases,
  Bool-cases, subst, inl, inr, arith, if◌then◌else◌, ◌==◌, length-take, length-drop, All-take,
  All-drop,
}
use lowping.Base.Bytes.{Bytes, IsBytes, to_be, from_be-lt_at}
use lowping.Base.Eq.{nat_eq, beq_refl}
use lowping.Base.Dict.{Dict, get, insert, get-insert}
use lowping.Base.Patch.{patch}
use lowping.Net.{IpAddr, v4, v6, SocketAddr}
use lowping.Capture.{
  Protocol, RouteAction, passthrough, rewrite_to, FlowEntry, u16_at, parse_packet, process_outbound,
  process_inbound, process_packet, flow_origin,
}
use lowping.Capture.Packet.{
  header_len, src_addr, dst_addr, parse_packet-eq-some, outbound_fields, inbound_fields,
}

pub flow_origin-insert :
    (k j : ℕ) (e : FlowEntry) (flows : Dict ℕ FlowEntry)
    → flow_origin (insert k e flows) j ≡ (
        if k == j
        then some (record { ip = v4 e.orig_dst_ip; port = e.orig_dst_port })
        else flow_origin flows j)
unfolding flow_origin
flow_origin-insert k j e flows = rw (get-insert k j e flows, flow_origin) (ground arith)

pub flow_origin-eq-some :
    (k : ℕ) (e : FlowEntry) (flows : Dict ℕ FlowEntry)
    → get k flows ≡ some e
    → flow_origin flows k ≡ some (record { ip = v4 e.orig_dst_ip; port = e.orig_dst_port })
unfolding flow_origin
flow_origin-eq-some k e flows found = rw (found, flow_origin) refl

-- To touch a flow does not change an origin.
touched :
    (k j at : ℕ) (e : FlowEntry) (flows : Dict ℕ FlowEntry)
    → get k flows ≡ some e
    → flow_origin (insert k (record e { last_seen = at }) flows) j ≡ flow_origin flows j
touched k j at e flows found = ground (
  arith,
  flow_origin-insert k j (record e { last_seen = at }) flows,
  flow_origin-eq-some k e flows found,
)

-- A bound on what the resolver and the table hold: an IPv4 address has four octets, a port is a `u16`.
abbrev pub IsTarget : SocketAddr → Type 0
IsTarget a = ((octets : Bytes) → a.ip ≡ v4 octets → length octets ≡ 4) × (a.port < 2 ^ 16)

abbrev pub IsFlow : FlowEntry → Type 0
IsFlow e = (length e.orig_dst_ip ≡ 4) × (e.orig_dst_port < 2 ^ 16)

target_cases :
    (t : SocketAddr) (ip : IpAddr)
    → t.ip ≡ ip
    → (rewrite_to t ≡ passthrough)
      ⊎ ((o : Bytes) × (port : ℕ) × (rewrite_to t ≡ rewrite_to (record { ip = v6 o; port = port })))
      ⊎ ((o : Bytes) × (port : ℕ) × (rewrite_to t ≡ rewrite_to (record { ip = v4 o; port = port })))
target_cases t (v6 o) e =
    inr (inl (o, t.port, ap (λ i. rewrite_to (record { ip = i; port = t.port })) e))
target_cases t (v4 o) e =
    inr (inr (o, t.port, ap (λ i. rewrite_to (record { ip = i; port = t.port })) e))

action_cases :
    (a : RouteAction)
    → (a ≡ passthrough)
      ⊎ ((o : Bytes) × (port : ℕ) × (a ≡ rewrite_to (record { ip = v6 o; port = port })))
      ⊎ ((o : Bytes) × (port : ℕ) × (a ≡ rewrite_to (record { ip = v4 o; port = port })))
action_cases passthrough = inl refl
action_cases (rewrite_to target) = target_cases target target.ip refl

-- What an outbound rewriting is made of.
process_outbound-eq-some :
    (resolve : SocketAddr → Protocol → RouteAction) (proto : Protocol) (at : ℕ)
    (flows flows' : Dict ℕ FlowEntry) (pkt out : Bytes)
    → process_outbound resolve proto (header_len pkt) at flows pkt ≡ (some out, flows')
    → (target : SocketAddr) × (octets : Bytes) × (resolve (dst_addr pkt) proto ≡ rewrite_to target)
      × (target.ip ≡ v4 octets)
      × (out ≡ patch (header_len pkt + 2) (to_be 2 target.port) (patch 16 octets pkt))
      × (flows'
          ≡ insert
              (src_addr pkt).port
              (record {
                orig_dst_ip = take 4 (drop 16 pkt);
                orig_dst_port = (dst_addr pkt).port;
                redirect_target = target;
                last_seen = at;
              })
              flows)
unfolding process_outbound
process_outbound-eq-some resolve proto at flows flows' pkt out e =
    elim (action_cases (resolve (dst_addr pkt) proto)) [
      | inl pass ↦ absurd (ground arith)
      | inr (inl (o, port, other)) ↦ absurd (ground arith)
      | inr (inr (o, port, target)) ↦
          (record { ip = v4 o; port = port }, o, target, refl, ground arith, ground arith)
    ]

process_packet-true :
    (resolve : SocketAddr → Protocol → RouteAction) (at : ℕ) (flows flows' : Dict ℕ FlowEntry)
    (pkt out : Bytes)
    → process_packet resolve true at flows pkt ≡ (some out, flows')
    → (proto : Protocol) × (n : ℕ) × (parse_packet pkt ≡ some (proto, n))
      × (process_outbound resolve proto n at flows pkt ≡ (some out, flows'))
unfolding process_packet
process_packet-true resolve at flows flows' pkt out e = elim (Option-cases (parse_packet pkt)) [
  | inl bad ↦ absurd (ground arith)
  | inr ((proto, n), read) ↦ (proto, n, read, ground arith)
]

process_packet-false :
    (resolve : SocketAddr → Protocol → RouteAction) (at : ℕ) (flows flows' : Dict ℕ FlowEntry)
    (pkt out : Bytes)
    → process_packet resolve false at flows pkt ≡ (some out, flows')
    → (proto : Protocol) × (n : ℕ) × (entry : FlowEntry) × (parse_packet pkt ≡ some (proto, n))
      × (get (u16_at (n + 2) pkt) flows ≡ some entry)
      × (out ≡ patch n (to_be 2 entry.orig_dst_port) (patch 12 entry.orig_dst_ip pkt))
      × (flows' ≡ insert (u16_at (n + 2) pkt) (record entry { last_seen = at }) flows)
unfolding process_packet process_inbound
process_packet-false resolve at flows flows' pkt out e = elim (Option-cases (parse_packet pkt)) [
  | inl bad ↦ absurd (ground arith)
  | inr ((proto, n), read) ↦ elim (Option-cases (get (u16_at (n + 2) pkt) flows)) [
    | inl gone ↦ absurd (ground arith)
    | inr (entry, found) ↦ (proto, n, entry, read, found, ground arith, ground arith)
  ]
]

-- An outbound packet that is rewritten keeps its length and its source, and goes to the target that the
-- resolver gave for its destination. The flow's origin is then that destination, and no other flow
-- changes.
pub process_packet-outbound :
    (resolve : SocketAddr → Protocol → RouteAction) (at other : ℕ) (flows flows' : Dict ℕ FlowEntry)
    (pkt out : Bytes)
    → ((d : SocketAddr) (p : Protocol) (a : SocketAddr) → resolve d p ≡ rewrite_to a → IsTarget a)
    → process_packet resolve true at flows pkt ≡ (some out, flows')
    → (proto : Protocol) × (resolve (dst_addr pkt) proto ≡ rewrite_to (dst_addr out))
      × (src_addr out ≡ src_addr pkt)
      × (length out ≡ length pkt)
      × (flow_origin flows' other
          ≡ (if (src_addr pkt).port == other then some (dst_addr pkt) else flow_origin flows other))
process_packet-outbound resolve at other flows flows' pkt out good e =
    let (proto, n, read, done) = process_packet-true resolve at flows flows' pkt out e in
    let (hn, lo, hi) = parse_packet-eq-some pkt proto n read in
    let (target, octets, chosen, ip, out_is, flows_are) =
      process_outbound-eq-some resolve proto at flows flows' pkt out (rw hn at done) in
    let (four, small) = good (dst_addr pkt) proto target chosen in
    let (same, dst, src) =
      outbound_fields octets pkt target.port (four octets ip) small (omega arith) (omega arith) in
    let there : target ≡ record { ip = v4 octets; port = target.port } =
      ap (λ i. record { ip = i; port = target.port }) ip in
    (
      proto,
      rw (out_is, dst, ← there) chosen,
      rw out_is src,
      rw out_is same,
      rw flows_are (flow_origin-insert (src_addr pkt).port other _ flows),
    )

-- An inbound packet that is rewritten keeps its length and its destination, and comes from the origin of
-- the flow of its destination port. No flow changes its origin.
pub process_packet-inbound :
    (resolve : SocketAddr → Protocol → RouteAction) (at other : ℕ) (flows flows' : Dict ℕ FlowEntry)
    (pkt out : Bytes)
    → ((p : ℕ) (e : FlowEntry) → get p flows ≡ some e → IsFlow e)
    → process_packet resolve false at flows pkt ≡ (some out, flows')
    → (flow_origin flows (dst_addr pkt).port ≡ some (src_addr out))
      × (dst_addr out ≡ dst_addr pkt)
      × (length out ≡ length pkt)
      × (flow_origin flows' other ≡ flow_origin flows other)
process_packet-inbound resolve at other flows flows' pkt out good e =
    let (proto, n, entry, read, found', out_is', flows_are') =
      process_packet-false resolve at flows flows' pkt out e in
    let (hn, lo, hi) = parse_packet-eq-some pkt proto n read in
    let found = rw hn at found' in
    let out_is = rw hn at out_is' in
    let flows_are = rw hn at flows_are' in
    let (four, small) = good _ entry found in
    let (same, src, dst) =
      inbound_fields entry.orig_dst_ip pkt entry.orig_dst_port four small (omega arith)
        (omega arith) in
    (
      rw (out_is, src) (flow_origin-eq-some _ entry flows found),
      rw out_is dst,
      rw out_is same,
      rw flows_are (touched (dst_addr pkt).port other at entry flows found),
    )

-- An inbound packet that passes the guards, to a port that has a flow, is rewritten: it comes from the
-- origin of the flow, and keeps its destination.
pub process_packet-answered :
    (resolve : SocketAddr → Protocol → RouteAction) (at n : ℕ) (proto : Protocol)
    (flows : Dict ℕ FlowEntry) (pkt : Bytes) (entry : FlowEntry)
    → parse_packet pkt ≡ some (proto, n)
    → get (dst_addr pkt).port flows ≡ some entry
    → IsFlow entry
    → (out : Bytes) × (flows' : Dict ℕ FlowEntry) × (process_packet resolve false at flows pkt
        ≡ (some out, flows'))
      × (src_addr out ≡ record { ip = v4 entry.orig_dst_ip; port = entry.orig_dst_port })
      × (dst_addr out ≡ dst_addr pkt)
unfolding process_packet process_inbound
process_packet-answered resolve at n proto flows pkt entry read found (four, small) =
    let (hn, lo, hi) = parse_packet-eq-some pkt proto n read in
    let (_, src, dst) =
      inbound_fields entry.orig_dst_ip pkt entry.orig_dst_port four small (omega arith)
        (omega arith) in
    let there : get (u16_at (n + 2) pkt) flows ≡ some entry = rw hn found in
    let done_n : process_packet resolve false at flows pkt ≡ (
      some (patch n (to_be 2 entry.orig_dst_port) (patch 12 entry.orig_dst_ip pkt)),
      insert (u16_at (n + 2) pkt) (record entry { last_seen = at }) flows,
    ) =
      rw (read, process_packet, there, process_inbound) refl in
    (_, _, rw hn at done_n, src, dst)

insert_keeps :
    (k p : ℕ) (new entry : FlowEntry) (flows : Dict ℕ FlowEntry)
    → IsFlow new
    → ((p : ℕ) (e : FlowEntry) → get p flows ≡ some e → IsFlow e)
    → get p (insert k new flows) ≡ some entry
    → IsFlow entry
insert_keeps k p new entry flows fine good found =
    let cut = get-insert k p new flows in
    elim (Bool-cases (k == p)) [
      | inl hit ↦ let same : new ≡ entry = ground arith in subst IsFlow same fine
      | inr miss ↦ good p entry (ground arith)
    ]

-- The flow table's entries keep an address and a port, whatever the packets.
pub process_packet-IsFlow :
    (resolve : SocketAddr → Protocol → RouteAction) (outbound : Bool) (at : ℕ)
    (flows flows' : Dict ℕ FlowEntry) (pkt out : Bytes)
    → IsBytes pkt
    → ((p : ℕ) (e : FlowEntry) → get p flows ≡ some e → IsFlow e)
    → process_packet resolve outbound at flows pkt ≡ (some out, flows')
    → (p : ℕ) (e : FlowEntry) → get p flows' ≡ some e
    → IsFlow e
process_packet-IsFlow resolve true at flows flows' pkt out bytes good e p entry found =
    let (proto, n, read, done) = process_packet-true resolve at flows flows' pkt out e in
    let (hn, lo, hi) = parse_packet-eq-some pkt proto n read in
    let (target, octets, chosen, ip, out_is, flows_are) =
      process_outbound-eq-some resolve proto at flows flows' pkt out (rw hn at done) in
    let n = header_len pkt in
    let port = take 2 (drop (n + 2) pkt) in
    let two : length port ≡ 2 =
      omega (arith, length-take 2 (drop (n + 2) pkt), length-drop (n + 2) pkt) in
    let small =
      from_be-lt_at 2 port two (All-take _ 2 _ (All-drop (λ b. b < 256) (n + 2) pkt bytes)) in
    let four : length (take 4 (drop 16 pkt)) ≡ 4 =
      omega (arith, length-take 4 (drop 16 pkt), length-drop 16 pkt) in
    insert_keeps (src_addr pkt).port p _ entry flows (four, omega arith) good
      (rw flows_are at found)
process_packet-IsFlow resolve false at flows flows' pkt out bytes good e p entry found =
    let (proto, n, old, read, there, out_is, flows_are) =
      process_packet-false resolve at flows flows' pkt out e in
    insert_keeps (u16_at (n + 2) pkt) p _ entry flows (good _ old there) good
      (rw flows_are at found)

-- The destination NAT is transparent: the game sends to a server and the packet is rewritten, and a
-- packet that comes back to the game's port is rewritten to come from that server. Between the two,
-- other flows may come and go, as long as the port's origin stays.
pub response_from_server :
    (resolve : SocketAddr → Protocol → RouteAction) (at at' : ℕ)
    (flows sent answered later : Dict ℕ FlowEntry) (request wire response out : Bytes)
    → ((d : SocketAddr) (p : Protocol) (a : SocketAddr) → resolve d p ≡ rewrite_to a → IsTarget a)
    → ((p : ℕ) (e : FlowEntry) → get p later ≡ some e → IsFlow e)
    → process_packet resolve true at flows request ≡ (some wire, sent)
    → flow_origin later (src_addr request).port ≡ flow_origin sent (src_addr request).port
    → (dst_addr response).port ≡ (src_addr request).port
    → process_packet resolve false at' later response ≡ (some out, answered)
    → (src_addr out ≡ dst_addr request) × (dst_addr out ≡ dst_addr response)
response_from_server resolve at at' flows sent answered later request wire response out good table e
      keeps port f =
    let own = (src_addr request).port in
    let (_, _, _, _, recorded) =
      process_packet-outbound resolve at own flows sent request wire good e in
    let (origin, dst, _, _) =
      process_packet-inbound resolve at' own later answered response out table f in
    let hit : (own == own) ≡ true = beq_refl own in
    let there : flow_origin sent own ≡ some (dst_addr request) = rw hit at recorded in
    let here : flow_origin later own ≡ some (src_addr out) = rw port at origin in
    (ground arith, dst)

-- The table has the source port alone for key. A game that sends from one port to a second server takes
-- over the flow, so that a late response of the first server comes, for the game, from the second.
pub response_misattributed :
    (resolve : SocketAddr → Protocol → RouteAction) (at at' : ℕ)
    (flows sent again answered : Dict ℕ FlowEntry) (first second wire wire' response out : Bytes)
    → ((d : SocketAddr) (p : Protocol) (a : SocketAddr) → resolve d p ≡ rewrite_to a → IsTarget a)
    → ((p : ℕ) (e : FlowEntry) → get p again ≡ some e → IsFlow e)
    → process_packet resolve true at flows first ≡ (some wire, sent)
    → process_packet resolve true at sent second ≡ (some wire', again)
    → (src_addr second).port ≡ (src_addr first).port
    → (dst_addr response).port ≡ (src_addr first).port
    → process_packet resolve false at' again response ≡ (some out, answered)
    → src_addr out ≡ dst_addr second
response_misattributed resolve at at' flows sent again answered first second wire wire' response out
      good table e f same port g =
    (response_from_server resolve at at' sent again answered again second wire' response out good
      table f refl (rw same port) g).0
