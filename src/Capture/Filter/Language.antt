-- ===== src/Capture/Filter/Language.antt =====
-- The part of the driver's filter language that `build_filter` uses. Tests and connectives mean what its
-- documentation says; `and` binds tighter than `or`.
use lowping.Base.{ℕ, Bool, true, false, ◌&&◌, ◌||◌, not, List, [], ◌∷◌, ◌++◌, ◌==◌, if◌then◌else◌}
use lowping.Base.Bytes.{Bytes}
use lowping.Base.Eq.{nat_eq, list_beq}
use lowping.Net.{SocketAddr}
use lowping.Net.Show.{codes, show_nat, show_ipv4}
use lowping.Capture.Filter.{only_v4}

pub data Test : Type 0 where
  udp outbound inbound : Test
  dst_addr src_addr : Bytes → Test
  src_port : ℕ → Test

pub data Expr : Type 0 where
  test : Test → Expr
  conj disj : Expr → Expr → Expr
  negated group : Expr → Expr

-- The printed form, in front of `tail`.
abbrev pub render_test : Test → Bytes → Bytes
render_test udp tail = codes "udp" ++ tail
render_test outbound tail = codes "outbound" ++ tail
render_test inbound tail = codes "inbound" ++ tail
render_test (dst_addr a) tail = codes "ip.DstAddr == " ++ (show_ipv4 a ++ tail)
render_test (src_addr a) tail = codes "ip.SrcAddr == " ++ (show_ipv4 a ++ tail)
render_test (src_port p) tail = codes "udp.SrcPort == " ++ (show_nat p ++ tail)

abbrev pub render : Expr → Bytes → Bytes
render (test t) tail = render_test t tail
render (conj a b) tail = render a (codes " and " ++ render b tail)
render (disj a b) tail = render a (codes " or " ++ render b tail)
render (negated a) tail = codes "not " ++ render a tail
render (group a) tail = codes "(" ++ render a (codes ")" ++ tail)

-- The printed form is read as this expression: no `or` stands bare beside an `and`, and `not` stands
-- before a test or a group.
abbrev pub is_disj : Expr → Bool
is_disj (disj a b) = true
is_disj _ = false

abbrev pub is_atom : Expr → Bool
is_atom (test t) = true
is_atom (group a) = true
is_atom _ = false

abbrev pub readable : Expr → Bool
readable (test t) = true
readable (conj a b) = not (is_disj a) && not (is_disj b) && readable a && readable b
readable (disj a b) = readable a && readable b
readable (negated a) = is_atom a && readable a
readable (group a) = readable a

-- The fields of a packet that the tests look at.
pub record View : Type 0 where
  pub is_udp : Bool
  pub is_outbound : Bool
  pub src_ip : Bytes
  pub src : ℕ
  pub dst_ip : Bytes

abbrev pub holds_test : Test → View → Bool
holds_test udp v = v.is_udp
holds_test outbound v = v.is_outbound
holds_test inbound v = not v.is_outbound
holds_test (dst_addr a) v = list_beq v.dst_ip a
holds_test (src_addr a) v = list_beq v.src_ip a
holds_test (src_port p) v = v.is_udp && v.src == p

abbrev pub holds : Expr → View → Bool
holds (test t) v = holds_test t v
holds (conj a b) v = holds a v && holds b v
holds (disj a b) v = holds a v || holds b v
holds (negated a) v = not (holds a v)
holds (group a) v = holds a v

-- The IPv4 addresses of a list, with their ports.
abbrev pub v4_of : List SocketAddr → List (Bytes × ℕ)
v4_of = only_v4 (λ octets port. (octets, port))

-- The packet goes to the host of one of these addresses, at any port.
abbrev pub to_host_of : List (Bytes × ℕ) → View → Bool
to_host_of [] v = false
to_host_of ((a, p) ∷ rest) v = list_beq v.dst_ip a || to_host_of rest v

abbrev pub comes_from : List (Bytes × ℕ) → View → Bool
comes_from [] v = false
comes_from ((a, p) ∷ rest) v = (list_beq v.src_ip a && v.src == p) || comes_from rest v

-- What capture is for: UDP only; outbound, what is not sent to the host of a bridge or of a local listener,
-- whatever the port; inbound, what comes from the address and port of a local listener.
abbrev pub wanted : List SocketAddr → List SocketAddr → View → Bool
wanted targets endpoints v =
    v.is_udp
    && (if v.is_outbound
        then not (to_host_of (v4_of endpoints ++ v4_of targets) v)
        else comes_from (v4_of targets) v)
