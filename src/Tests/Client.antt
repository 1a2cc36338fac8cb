-- ===== src/Tests/Client.antt =====
-- The client's numbering of frames and the router's choice, once each.
use lowping.Base.{
  ℕ, ◌≡◌, ◌≢◌, refl, true, false, List, [], ◌∷◌, All, Option, none, some, arith, get_elem?,
}
use lowping.Base.Bytes.{Bytes}
use lowping.Base.Eq.{nat_eq, list_eq}
use lowping.Base.Dict.{get}
use lowping.Crypto.Toys.{toy_suite}
use lowping.Protocol.Nonce.{derive_nonce}
use lowping.Net.{IpAddr, v4, ip_eq, SocketAddr}
use lowping.Client.Udp.{send_all, Numbered, send_all-Numbered}
use lowping.Client.Router.Millis.{toy_float}
use lowping.Client.Router.{
  BridgeEntry, Router, via_bridge, candidate, best_bridge, choose, decide, pick,
}
use lowping.Client.Router.Best.{IsNumber}
use lowping.Client.Router.Pick.{IsRouter, pick-via_bridge}
use lowping.Tests.World.{busy_client, payload, client_addr}

abbrev datagrams : List (Bytes × ℕ)
datagrams = (payload, 50) ∷ (payload, 51) ∷ []

send_all-Numbered_example :
    Numbered toy_suite busy_client.aead_key 77 10 (send_all toy_suite busy_client datagrams).0
    × ((send_all toy_suite busy_client datagrams).1.tx_sequence ≡ 11)
    × (derive_nonce 77 10 ≢ derive_nonce 77 11)
send_all-Numbered_example =
    send_all-Numbered toy_suite busy_client datagrams 0 1 (omega arith) (omega arith) (omega arith)
      (omega arith)

-- The region "1" and two bridges, of which the second is nearer.
abbrev dallas : BridgeEntry toy_float
dallas = record {
  name = 20 ∷ [];
  endpoint = client_addr;
  bridge_x25519_pubkey_hex = [];
  license_token = [];
  listen_port = 9701;
  region_rtt_ms = (1 ∷ [], some 1) ∷ [];
}

abbrev nj : BridgeEntry toy_float
nj = record dallas { name = 10 ∷ []; listen_port = 9700; region_rtt_ms = (1 ∷ [], some 5) ∷ [] }

abbrev region_for : IpAddr → Option Bytes
region_for ip = some (1 ∷ [])

abbrev router : Router toy_float
router = record {
  bridges = nj ∷ dallas ∷ [];
  client_to_bridge_ms = (10 ∷ [], some 35) ∷ (20 ∷ [], some 22) ∷ [];
  cache = [];
  recent = [];
  recent_capacity = 64;
  margin_ms = some 2;
  reroute_interval = 60;
}

router_fits : IsRouter toy_float router
router_fits = record { bounded = omega arith; capacity = omega arith; in_range = tt }

abbrev dest : SocketAddr
dest = record { ip = v4 (18 ∷ 88 ∷ 19 ∷ 234 ∷ []); port = 22222 }

no_cache : get dest.ip router.cache ≡ none
unfolding get
no_cache = refl

numbers :
    All
      (λ b.
        IsNumber toy_float (candidate toy_float router.client_to_bridge_ms (region_for dest.ip) b))
      router.bridges
unfolding candidate get
numbers = (refl, (refl, tt))

chosen : (pick toy_float region_for router dest (some 40) 5).0 ≡ via_bridge 1
unfolding pick decide choose best_bridge candidate get
chosen = refl

nj_total : candidate toy_float router.client_to_bridge_ms (region_for dest.ip) nj ≡ some (some 40)
unfolding candidate get
nj_total = refl

pick-via_bridge_example :
    (b : BridgeEntry toy_float) × (t : Option ℕ) × (get_elem? router.bridges 1 ≡ some b)
    × (candidate toy_float router.client_to_bridge_ms (region_for dest.ip) b ≡ some t)
    × (toy_float.lt (toy_float.add t (some 2)) (some 40) ≡ true)
    × (toy_float.lt (some 40) t ≡ false)
pick-via_bridge_example =
    pick-via_bridge toy_float region_for router dest (some 40) (some 40) 5 1 0 nj no_cache numbers
      chosen refl nj_total
