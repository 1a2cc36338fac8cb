-- ===== src/Capture/Loop/Flows.antt =====
-- A flow lives through the rounds of the loop, the reaper's turns among them.
use lowping.Base.{
  take, drop, length, some_injective, ℕ, ◌+◌, ◌^◌, ◌<◌, ◌≤◌, ◌≡◌, refl, ap, sym, ◌∙◌, Bool, true,
  false, List, [], ◌∷◌, Option, some, Option-cases, Bool-cases, All, inl, inr, arith, ltb, leb,
  ◌==◌, ==_iff, leb_of_le,
}
use lowping.Base.Bytes.{Bytes}
use lowping.Base.Eq.{nat_eq}
use lowping.Base.Dict.{Dict, NodupKeys, get, insert, get-insert, insert-NodupKeys, retain-NodupKeys}
use lowping.Net.{IpAddr, v4, v6, SocketAddr}
use lowping.Capture.{
  Protocol, RouteAction, passthrough, rewrite_to, FlowEntry, CaptureState, u16_at, parse_packet,
  process_outbound, process_inbound, process_packet, capture_packet, reap_flows,
}
use lowping.Capture.Packet.{src_addr, dst_addr, parse_packet-eq-some}
use lowping.Capture.Nat.{IsFlow, process_packet-answered}
use lowping.Capture.Reaping.{get-reap_flows}
use lowping.Capture.Loop.{Round, LoopState, reap_turn, round, run_rounds}

-- The port's flow leads to this destination, and is fresh up to `limit`.
pub record Fresh (idle port limit : ℕ) (ip : Bytes) (dport : ℕ) (flows : Dict ℕ FlowEntry)
    : Type 0 where
  pub unique : NodupKeys flows
  pub entry : FlowEntry
  pub found : get port flows ≡ some entry
  pub dst_ip : entry.orig_dst_ip ≡ ip
  pub dst_port : entry.orig_dst_port ≡ dport
  pub fresh : limit ≤ entry.last_seen + idle

module _ (idle port limit : ℕ) (ip : Bytes) (dport : ℕ) where
  abbrev Kept : Dict ℕ FlowEntry → Type 0
  Kept = Fresh idle port limit ip dport

  reap_flows-Fresh :
      (top : ℕ) (flows : Dict ℕ FlowEntry)
      → top ≤ limit
      → Kept flows
      → Kept (reap_flows idle top flows)
  reap_flows-Fresh top flows early k =
      let live : leb top (k.entry.last_seen + idle) ≡ true =
        leb_of_le top (k.entry.last_seen + idle) (omega (arith, k.fresh)) in
      let kept = get-reap_flows idle top port flows k.unique in
      let found = rw (k.found, live) at kept in
      record {
        unique = unfold reap_flows in retain-NodupKeys _ flows k.unique;
        entry = k.entry;
        found = found;
        dst_ip = k.dst_ip;
        dst_port = k.dst_port;
        fresh = k.fresh;
      }

  -- An entry that is put in at another port, or that is the port's own, touched.
  insert-Fresh_other :
      (p : ℕ) (new : FlowEntry) (flows : Dict ℕ FlowEntry)
      → (p == port) ≡ false
      → Kept flows
      → Kept (insert p new flows)
  insert-Fresh_other p new flows other k = record {
    unique = insert-NodupKeys p new flows k.unique;
    entry = k.entry;
    found = get-insert p port new flows ∙ rw other k.found;
    dst_ip = k.dst_ip;
    dst_port = k.dst_port;
    fresh = k.fresh;
  }

  touch-Fresh :
      (p at : ℕ) (old : FlowEntry) (flows : Dict ℕ FlowEntry)
      → limit ≤ at + idle
      → get p flows ≡ some old
      → Kept flows
      → Kept (insert p (record old { last_seen = at }) flows)
  touch-Fresh p at old flows late there k = elim (Bool-cases (p == port)) [
    | inr other ↦ insert-Fresh_other p (record old { last_seen = at }) flows other k
    | inl same ↦
        let one : p ≡ port = (==_iff p port).0 same in
        let both : some old ≡ some k.entry = sym there ∙ ap (λ q. get q flows) one ∙ k.found in
        let its = some_injective old k.entry both in
        record {
          unique = insert-NodupKeys p _ flows k.unique;
          entry = record old { last_seen = at };
          found = get-insert p port _ flows ∙ rw same refl;
          dst_ip = ap (λ (e : FlowEntry). e.orig_dst_ip) its ∙ k.dst_ip;
          dst_port = ap (λ (e : FlowEntry). e.orig_dst_port) its ∙ k.dst_port;
          fresh = late;
        }
  ]

  process_inbound-Fresh :
      (n at : ℕ) (flows : Dict ℕ FlowEntry) (pkt : Bytes)
      → limit ≤ at + idle
      → Kept flows
      → Kept (process_inbound n at flows pkt).1
  unfolding process_inbound
  process_inbound-Fresh n at flows pkt late k =
      elim (Option-cases (get (u16_at (n + 2) pkt) flows)) [
        | inl gone ↦ rw (gone, process_inbound) k
        | inr (old, there) ↦
            rw (there, process_inbound) (touch-Fresh (u16_at (n + 2) pkt) at old flows late there k)
      ]

  -- Outbound, the table stays, or the source port gets an entry.
  module _ (resolve : SocketAddr → Protocol → RouteAction) where
    record_flow :
        (proto : Protocol) (n at : ℕ) (flows : Dict ℕ FlowEntry) (pkt : Bytes) (t : SocketAddr)
        (i : IpAddr)
        → t.ip ≡ i
        → resolve (record { ip = v4 (take 4 (drop 16 pkt)); port = u16_at (n + 2) pkt }) proto
          ≡ rewrite_to t
        → (u16_at n pkt == port) ≡ false
        → Kept flows
        → Kept (process_outbound resolve proto n at flows pkt).1
    unfolding process_outbound
    record_flow proto n at flows pkt t (v6 o) ip chosen other k =
        rw (chosen, process_outbound, ip) k
    record_flow proto n at flows pkt t (v4 o) ip chosen other k =
        rw (chosen, process_outbound, ip) (insert-Fresh_other (u16_at n pkt) _ flows other k)

    process_outbound-Fresh :
        (proto : Protocol) (n at : ℕ) (flows : Dict ℕ FlowEntry) (pkt : Bytes)
        (action : RouteAction)
        → resolve (record { ip = v4 (take 4 (drop 16 pkt)); port = u16_at (n + 2) pkt }) proto
          ≡ action
        → (u16_at n pkt == port) ≡ false
        → Kept flows
        → Kept (process_outbound resolve proto n at flows pkt).1
    unfolding process_outbound
    process_outbound-Fresh proto n at flows pkt passthrough chosen other k =
        rw (chosen, process_outbound) k
    process_outbound-Fresh proto n at flows pkt (rewrite_to t) chosen other k =
        record_flow proto n at flows pkt t t.ip refl chosen other k

    -- A packet that comes in, or that goes out from another port.
    abbrev pub Leaves : Bool → Bytes → Type 0
    Leaves outbound pkt = outbound ≡ true → ((src_addr pkt).port == port) ≡ false

    process_packet-Fresh :
        (outbound : Bool) (at : ℕ) (flows : Dict ℕ FlowEntry) (pkt : Bytes)
        → limit ≤ at + idle
        → Leaves outbound pkt
        → Kept flows
        → Kept (process_packet resolve outbound at flows pkt).1
    unfolding process_packet
    process_packet-Fresh outbound at flows pkt late leaves k =
        elim (Option-cases (parse_packet pkt)) [
          | inl odd ↦ rw (odd, process_packet) k
          | inr ((proto, n), read) ↦ elim (Bool-cases outbound) [
            | inr inward ↦
                rw (read, process_packet, inward) (process_inbound-Fresh n at flows pkt late k)
            | inl outward ↦
                let (hn, _, _) = parse_packet-eq-some pkt proto n read in
                let other : (u16_at n pkt == port) ≡ false = rw hn (leaves outward) in
                rw (read, process_packet, outward)
                  (process_outbound-Fresh proto n at flows pkt _ refl other k)
          ]
        ]

    module _ (recalculate_checksums : Bytes → Option Bytes) where
      flows-capture_packet :
          (st : CaptureState) (outbound : Bool) (at : ℕ) (pkt : Bytes)
          → (capture_packet recalculate_checksums resolve st outbound at pkt).1.flows
            ≡ (process_packet resolve outbound at st.flows pkt).1
      unfolding capture_packet
      flows-capture_packet st outbound at pkt =
          elim (Option-cases (process_packet resolve outbound at st.flows pkt).0) [
            | inl pass ↦ rw (pass, capture_packet) refl
            | inr (out, made) ↦ elim (Option-cases (recalculate_checksums out)) [
              | inl bad ↦ rw (made, capture_packet, bad) refl
              | inr (wire, good) ↦ rw (made, capture_packet, good) refl
            ]
          ]

      -- A round in which the flow stays: the reaper's turn comes no later than the limit, a packet no
      -- earlier than the idle time before it, and nothing goes out from the port.
      abbrev pub Spares : Round → Type 0
      Spares r =
          (r.top ≤ limit)
          × (limit ≤ r.at + idle)
          × ((outbound : Bool) (pkt : Bytes)
              → r.received ≡ some (outbound, pkt)
              → Leaves outbound pkt)

      reap_turn-Fresh :
          (top : ℕ) (st : LoopState)
          → top ≤ limit
          → Kept st.capture.flows
          → Kept (reap_turn idle top st).capture.flows
      unfolding reap_turn
      reap_turn-Fresh top st early k = elim (Bool-cases (ltb (st.last_reap + 15) top)) [
        | inl turn ↦ rw turn (reap_flows-Fresh top st.capture.flows early k)
        | inr wait ↦ rw wait k
      ]

      round-Fresh :
          (st : LoopState) (r : Round)
          → Spares r
          → Kept st.capture.flows
          → Kept (round recalculate_checksums resolve idle st r).1.capture.flows
      unfolding round
      round-Fresh st r (early, late, quiet) k =
          let st' = reap_turn idle r.top st in
          let k' = reap_turn-Fresh r.top st early k in
          elim (Option-cases r.received) [
            | inl failed ↦ rw (failed, round) k'
            | inr ((outbound, pkt), got) ↦
                rw (got, round, flows-capture_packet st'.capture outbound r.at pkt)
                  (process_packet-Fresh outbound r.at st'.capture.flows pkt late
                    (quiet outbound pkt got) k')
          ]

      pub run_rounds-Fresh :
          (st : LoopState) (rounds : List Round)
          → All Spares rounds
          → Kept st.capture.flows
          → Kept (run_rounds recalculate_checksums resolve idle st rounds).1.capture.flows
      unfolding run_rounds
      run_rounds-Fresh st [] quiet k = k
      run_rounds-Fresh st (r ∷ rounds) (first, rest) k = elim (Bool-cases r.running) [
        | inl on ↦
            let next = (round recalculate_checksums resolve idle st r).1 in
            simp on (run_rounds-Fresh next rounds rest (round-Fresh st r first k))
        | inr off ↦ simp off k
      ]

      -- A flow is not lost while it is in use. In a flow table without repeated ports, the port's flow
      -- leads to a server on IPv4, and was seen within the idle time before `limit`. Rounds of the loop
      -- follow, with the reaper's turns among them: each begins no later than `limit`, its packet comes
      -- no earlier than the idle time before `limit`, and nothing goes out from the port. Then every
      -- inbound TCP or UDP packet to the port that passes the guards is rewritten: it comes, for the
      -- game, from that server, and keeps its destination.
      pub response_after-run_rounds :
          (st : LoopState) (rounds : List Round) (at n : ℕ) (proto : Protocol) (response : Bytes)
          → All Spares rounds
          → Kept st.capture.flows
          → length ip ≡ 4
          → dport < 2 ^ 16
          → parse_packet response ≡ some (proto, n)
          → (dst_addr response).port ≡ port
          → (out : Bytes) × (flows : Dict ℕ FlowEntry) × (process_packet resolve false at
                (run_rounds recalculate_checksums resolve idle st rounds).1.capture.flows
                response
              ≡ (some out, flows))
            × (src_addr out ≡ record { ip = v4 ip; port = dport })
            × (dst_addr out ≡ dst_addr response)
      response_after-run_rounds st rounds at n proto response quiet k four small read to =
          let last = (run_rounds recalculate_checksums resolve idle st rounds).1.capture.flows in
          let kept = run_rounds-Fresh st rounds quiet k in
          let entry = kept.entry in
          let found : get (dst_addr response).port last ≡ some entry = rw to kept.found in
          let flow : IsFlow entry = (ap length kept.dst_ip ∙ four, rw kept.dst_port small) in
          let (out, flows, done, src, dst) =
            process_packet-answered resolve at n proto last response entry read found flow in
          (out, flows, done, src ∙ rw (kept.dst_ip, kept.dst_port) refl, dst)
