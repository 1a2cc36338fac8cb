-- ===== src/Capture/Packet.antt =====
-- The fields of a packet that the NAT of crates/gr-capture/src/windivert_backend.rs reads and writes.
use Prim.Native.Nat.{bit_and}
use lowping.Base.{
  ℕ, ◌+◌, ◌*◌, ◌^◌, ◌≤◌, ◌<◌, ◌≡◌, refl, sym, ap, ◌∙◌, length, take, drop, get_or, some, arith,
  if◌then◌else◌, ◌==◌,
}
use lowping.Base.Bytes.{Bytes, to_be, from_be, length-to_be, from_be-to_be}
use lowping.Base.Eq.{nat_eq}
use lowping.Base.Dict.{Dict, get, insert, get-insert}
use lowping.Base.Patch.{
  patch, length-patch, drop-patch, take-drop-patch, take-drop-patch_before, get_or-patch_before,
}
use lowping.Net.{v4, SocketAddr}
use lowping.Capture.{Protocol, FlowEntry, u16_at, parse_packet, flow_origin}

-- The fields of an IPv4 packet with ports.
abbrev pub header_len : Bytes → ℕ
header_len pkt = bit_and (get_or pkt 0 0) 0x0F * 4

abbrev pub src_addr : Bytes → SocketAddr
src_addr pkt = record { ip = v4 (take 4 (drop 12 pkt)); port = u16_at (header_len pkt) pkt }

abbrev pub dst_addr : Bytes → SocketAddr
dst_addr pkt = record { ip = v4 (take 4 (drop 16 pkt)); port = u16_at (header_len pkt + 2) pkt }

-- A packet that passed the guards has both addresses and both ports.
pub parse_packet-eq-some :
    (pkt : Bytes) (proto : Protocol) (n : ℕ)
    → parse_packet pkt ≡ some (proto, n)
    → (n ≡ header_len pkt) × (20 ≤ n) × (n + 8 ≤ length pkt)
unfolding parse_packet
parse_packet-eq-some pkt proto n e = ground arith

-- Both rewritings write an address and a port: where the header's length is `n`, the address at `a` and
-- the port at `p`.
rewritten :
    (n a p : ℕ) (octets port pkt : Bytes)
    → n ≡ header_len pkt
    → 12 ≤ a
    → a + 4 ≤ p
    → p + 2 ≤ length pkt
    → length octets ≡ 4
    → length port ≡ 2
    → let out = patch p port (patch a octets pkt) in
      (length out ≡ length pkt)
      × (header_len out ≡ n)
      × (take 4 (drop a out) ≡ octets)
      × (take 2 (drop p out) ≡ port)
rewritten n a p octets port pkt hn lo mid hi size size' =
    let inner : Bytes = patch a octets pkt in
    let same = length-patch a octets pkt (omega arith) in
    let whole = length-patch p port inner (omega arith) in
    (
      whole ∙ same,
      ap (λ b. bit_and b 0x0F * 4)
            (get_or-patch_before p port inner 0 (omega arith) (omega arith)
              ∙ get_or-patch_before a octets pkt 0 (omega arith) (omega arith))
          ∙ sym hn,
      take-drop-patch_before 4 a p port inner mid (omega arith)
          ∙ take-drop-patch 4 a octets pkt size (omega arith),
      take-drop-patch 2 p port inner size' (omega arith),
    )

same_addr :
    {a b : Bytes} {p q : ℕ}
    → a ≡ b
    → p ≡ q
    → ◌≡◌ {A = SocketAddr} (record { ip = v4 a; port = p }) (record { ip = v4 b; port = q })
same_addr e f = cc

-- The fields after an outbound rewriting.
pub outbound_fields :
    (octets pkt : Bytes) (port : ℕ)
    → length octets ≡ 4
    → port < 2 ^ 16
    → 20 ≤ header_len pkt
    → header_len pkt + 8 ≤ length pkt
    → let out = patch (header_len pkt + 2) (to_be 2 port) (patch 16 octets pkt) in
      (length out ≡ length pkt)
      × (dst_addr out ≡ record { ip = v4 octets; port = port })
      × (src_addr out ≡ src_addr pkt)
outbound_fields octets pkt port size small lo hi =
    let n = header_len pkt in
    let bs = to_be 2 port in
    let two = length-to_be 2 port in
    let inner : Bytes = patch 16 octets pkt in
    let inner_size = length-patch 16 octets pkt (omega arith) in
    let (same, hdr, addr_at, port_at) =
      rewritten n 16 (n + 2) octets bs pkt refl (omega arith) (omega arith) (omega arith) size
        two in
    let src_ip =
      take-drop-patch_before 4 12 (n + 2) bs inner (omega arith) (omega arith)
      ∙ take-drop-patch_before 4 12 16 octets pkt (omega arith) (omega arith) in
    let src_port =
      take-drop-patch_before 2 n (n + 2) bs inner (omega arith) (omega arith)
      ∙ ap (take 2) (drop-patch n 16 octets pkt (omega arith) (omega arith)) in
    (
      same,
      same_addr addr_at (
          ap (λ k. u16_at (k + 2) (patch (n + 2) bs inner)) hdr
          ∙ ap from_be port_at
          ∙ from_be-to_be 2 port (omega arith)),
      same_addr src_ip (ap (λ k. u16_at k (patch (n + 2) bs inner)) hdr ∙ ap from_be src_port),
    )

-- The fields after an inbound rewriting.
pub inbound_fields :
    (octets pkt : Bytes) (port : ℕ)
    → length octets ≡ 4
    → port < 2 ^ 16
    → 20 ≤ header_len pkt
    → header_len pkt + 8 ≤ length pkt
    → let out = patch (header_len pkt) (to_be 2 port) (patch 12 octets pkt) in
      (length out ≡ length pkt)
      × (src_addr out ≡ record { ip = v4 octets; port = port })
      × (dst_addr out ≡ dst_addr pkt)
inbound_fields octets pkt port size small lo hi =
    let n = header_len pkt in
    let bs = to_be 2 port in
    let two = length-to_be 2 port in
    let inner : Bytes = patch 12 octets pkt in
    let inner_size = length-patch 12 octets pkt (omega arith) in
    let (same, hdr, addr_at, port_at) =
      rewritten n 12 n octets bs pkt refl (omega arith) (omega arith) (omega arith) size two in
    let dst_ip =
      take-drop-patch_before 4 16 n bs inner (omega arith) (omega arith)
      ∙ ap (take 4) (drop-patch 16 12 octets pkt (omega arith) (omega arith)) in
    let dst_port =
      ap (take 2) (drop-patch (n + 2) n bs inner (omega arith) (omega arith))
      ∙ ap (take 2) (drop-patch (n + 2) 12 octets pkt (omega arith) (omega arith)) in
    (
      same,
      same_addr addr_at (
          ap (λ k. u16_at k (patch n bs inner)) hdr
          ∙ ap from_be port_at
          ∙ from_be-to_be 2 port (omega arith)),
      same_addr dst_ip (ap (λ k. u16_at (k + 2) (patch n bs inner)) hdr ∙ ap from_be dst_port),
    )

pub flow_origin-insert :
    (k j : ℕ) (e : FlowEntry) (flows : Dict ℕ FlowEntry)
    → flow_origin (insert k e flows) j ≡ (
        if k == j
        then some (record { ip = v4 e.orig_dst_ip; port = e.orig_dst_port })
        else flow_origin flows j)
unfolding flow_origin
flow_origin-insert k j e flows = rw (get-insert k j e flows, flow_origin) (ground arith)

pub flow_origin-eq-some :
    (k : ℕ) (e : FlowEntry) (flows : Dict ℕ FlowEntry)
    → get k flows ≡ some e
    → flow_origin flows k ≡ some (record { ip = v4 e.orig_dst_ip; port = e.orig_dst_port })
unfolding flow_origin
flow_origin-eq-some k e flows found = rw (found, flow_origin) refl

-- To touch a flow does not change an origin.
touched :
    (k j at : ℕ) (e : FlowEntry) (flows : Dict ℕ FlowEntry)
    → get k flows ≡ some e
    → flow_origin (insert k (record e { last_seen = at }) flows) j ≡ flow_origin flows j
touched k j at e flows found = ground (
  arith,
  flow_origin-insert k j (record e { last_seen = at }) flows,
  flow_origin-eq-some k e flows found,
)

-- A bound on what the resolver and the table hold: an IPv4 address has four octets, a port is a `u16`.
abbrev pub IsTarget : SocketAddr → Type 0
IsTarget a = ((octets : Bytes) → a.ip ≡ v4 octets → length octets ≡ 4) × (a.port < 2 ^ 16)

abbrev pub IsFlow : FlowEntry → Type 0
IsFlow e = (length e.orig_dst_ip ≡ 4) × (e.orig_dst_port < 2 ^ 16)
