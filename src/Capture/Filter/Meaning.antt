-- ===== src/Capture/Filter/Meaning.antt =====
-- The filter's text as an expression of the driver's filter language, and what the expression accepts.
use lowping.Base.{
  ℕ, ◌<◌, ◌≡◌, refl, sym, ap, ◌∙◌, Bool, true, false, ◌&&◌, ◌||◌, not, List, [], ◌∷◌, ◌++◌,
  append_assoc, map, length, length-append, ok, arith, ◌==◌, if◌then◌else◌,
}
use lowping.Base.Bytes.{Bytes}
use lowping.Base.Eq.{nat_eq, list_beq}
use lowping.Net.{IpAddr, v4, v6, SocketAddr}
use lowping.Net.Show.{codes, show_nat, show_ipv4, join}
use lowping.Capture.Filter.Language.{
  udp, outbound, inbound, dst_addr, src_addr, src_port, Expr, test, conj, disj, negated, group,
  render, readable, View, holds, v4_of, to_host_of, comes_from, wanted,
}
use lowping.Capture.Filter.{entry, only_v4, exclude, exclude_clause, response_from, build_filter}

any_of : Expr → List Expr → Expr
any_of x [] = x
any_of x (y ∷ ys) = disj x (any_of y ys)

abbrev excluded : Bytes × ℕ → Expr
excluded (a, p) = test (dst_addr a)

abbrev response : Bytes × ℕ → Expr
response (a, p) = group (conj (test (src_addr a)) (test (src_port p)))

module _ (f : Bytes × ℕ → Expr) (text : Bytes × ℕ → Bytes)
    (prints : (a : Bytes × ℕ) (tail : Bytes) → render (f a) tail ≡ text a ++ tail) where
  render-any_of :
      (x : Bytes × ℕ) (xs : List (Bytes × ℕ)) (tail : Bytes)
      → render (any_of (f x) (map f xs)) tail ≡ join (codes " or ") (map text (x ∷ xs)) ++ tail
  unfolding any_of join
  render-any_of x [] tail = prints x tail
  render-any_of x (y ∷ ys) tail =
      prints x _
      ∙ ap (λ r. text x ++ (codes " or " ++ r)) (render-any_of y ys tail)
      ∙ sym (append_assoc (text x) (codes " or " ++ join (codes " or ") (map text (y ∷ ys))) tail)

module _ {ℓ} {A : Type ℓ} (f : Bytes → ℕ → A) where
  entry-map :
      (ip : IpAddr) (port : ℕ) (xs : List A) (ys : List (Bytes × ℕ))
      → xs ≡ map (λ a. f a.0 a.1) ys
      → entry f ip port xs ≡ map (λ a. f a.0 a.1) (entry (λ octets p. (octets, p)) ip port ys)
  entry-map (v4 octets) port xs ys e = ap (λ r. f octets port ∷ r) e
  entry-map (v6 octets) port xs ys e = e

  only_v4-map : (addrs : List SocketAddr) → only_v4 f addrs ≡ map (λ a. f a.0 a.1) (v4_of addrs)
  only_v4-map [] = refl
  only_v4-map (addr ∷ addrs) = entry-map addr.ip addr.port _ _ (only_v4-map addrs)

module _ (f : Bytes × ℕ → Expr) where
  readable-any_of :
      ((a : Bytes × ℕ) → readable (f a) ≡ true)
      → (x : Bytes × ℕ) (xs : List (Bytes × ℕ)) → readable (any_of (f x) (map f xs)) ≡ true
  unfolding any_of
  readable-any_of fine x [] = fine x
  readable-any_of fine x (y ∷ ys) = rw (fine x) (readable-any_of fine y ys)

holds-excluded :
    (x : Bytes × ℕ) (xs : List (Bytes × ℕ)) (v : View)
    → holds (any_of (excluded x) (map excluded xs)) v ≡ to_host_of (x ∷ xs) v
unfolding any_of
holds-excluded x [] v = ground arith
holds-excluded x (y ∷ ys) v = ap (λ r. list_beq v.dst_ip x.0 || r) (holds-excluded y ys v)

-- A test for a port holds of UDP packets only.
udp_step :
    (u a p h c : Bool)
    → (u && h) ≡ (u && c)
    → (u && ((a && (u && p)) || h)) ≡ (u && ((a && p) || c))
udp_step true a p h c e = ap (λ r. (a && p) || r) e
udp_step false a p h c e = refl

collect :
    (u o e r c : Bool)
    → (u && r) ≡ (u && c)
    → ((u && o && not e) || (u && not o && r)) ≡ (u && (if o then not e else c))
collect true true e r c same = ground arith
collect true false e r c same = same
collect false o e r c same = refl

holds-response :
    (x : Bytes × ℕ) (xs : List (Bytes × ℕ)) (v : View)
    → (v.is_udp && holds (any_of (response x) (map response xs)) v)
      ≡ (v.is_udp && comes_from (x ∷ xs) v)
unfolding any_of
holds-response x [] v =
    ap (λ b. v.is_udp && b) (ground arith)
    ∙ udp_step v.is_udp (list_beq v.src_ip x.0) (v.src == x.1) false false refl
holds-response x (y ∷ ys) v =
    udp_step v.is_udp (list_beq v.src_ip x.0) (v.src == x.1) _ _ (holds-response y ys v)

-- The expression for the excluded addresses `x ∷ xs` and the listeners `y ∷ ys`.
filter_expr : Bytes × ℕ → List (Bytes × ℕ) → Bytes × ℕ → List (Bytes × ℕ) → Expr
filter_expr x xs y ys =
    disj
      (group (
        conj (conj (test udp) (test outbound))
          (negated (group (any_of (excluded x) (map excluded xs))))))
      (group
        (conj (conj (test udp) (test inbound)) (group (any_of (response y) (map response ys)))))

filter_expr-readable :
    (x : Bytes × ℕ) (xs : List (Bytes × ℕ)) (y : Bytes × ℕ) (ys : List (Bytes × ℕ))
    → readable (filter_expr x xs y ys) ≡ true
unfolding filter_expr
filter_expr-readable x xs y ys =
    rw (readable-any_of excluded (λ a. refl) x xs, readable-any_of response (λ a. refl) y ys) refl

holds-filter_expr :
    (x : Bytes × ℕ) (xs : List (Bytes × ℕ)) (y : Bytes × ℕ) (ys : List (Bytes × ℕ)) (v : View)
    → holds (filter_expr x xs y ys) v
      ≡ (v.is_udp && (if v.is_outbound then not (to_host_of (x ∷ xs) v) else comes_from (y ∷ ys) v))
unfolding filter_expr
holds-filter_expr x xs y ys v =
    ap
      (λ b.
        (v.is_udp && v.is_outbound && not b)
        || (v.is_udp && not v.is_outbound && holds (any_of (response y) (map response ys)) v))
      (holds-excluded x xs v)
    ∙ collect v.is_udp v.is_outbound _ _ _ (holds-response y ys v)

map-append {ℓ κ} :
    {A : Type ℓ} {B : Type κ} (f : A → B) (xs ys : List A) → map f (xs ++ ys) ≡ map f xs ++ map f ys
map-append f [] ys = refl
map-append f (x ∷ xs) ys = ap (λ r. f x ∷ r) (map-append f xs ys)

abbrev exclude_text : Bytes × ℕ → Bytes
exclude_text a = exclude a.0 a.1

abbrev response_text : Bytes × ℕ → Bytes
response_text a = response_from a.0 a.1

-- The text around the two clauses.
abbrev filter_text : List Bytes → List Bytes → Bytes
filter_text excludes responses =
    codes "(udp and outbound"
    ++ (exclude_clause excludes
        ++ (codes ") or (udp and inbound and (" ++ (join (codes " or ") responses ++ codes "))")))

build_filter-text :
    (targets endpoints : List SocketAddr) (x : Bytes × ℕ) (xs : List (Bytes × ℕ))
    → v4_of endpoints ++ v4_of targets ≡ x ∷ xs
    → 0 < length targets
    → build_filter targets endpoints
      ≡ ok (filter_text (map exclude_text (x ∷ xs)) (map response_text (v4_of targets)))
unfolding build_filter
build_filter-text targets endpoints x xs addresses some_target =
    let excludes : only_v4 exclude endpoints ++ only_v4 exclude targets
        ≡ map exclude_text (x ∷ xs) =
      rw (only_v4-map exclude endpoints, only_v4-map exclude targets)
        (sym (map-append exclude_text (v4_of endpoints) (v4_of targets))
          ∙ ap (map exclude_text) addresses) in
    let present : (length targets == 0) ≡ false = ground arith in
    rw (present, excludes, only_v4-map response_from targets) refl

response_prints :
    (a : Bytes × ℕ) (tail : Bytes) → render (response a) tail ≡ response_text a ++ tail
response_prints a tail =
    let port = codes " and udp.SrcPort == " in
    let shown = show_nat a.1 ++ codes ")" in
    ap (λ r. codes "(ip.SrcAddr == " ++ r)
      (ap (λ r. show_ipv4 a.0 ++ (port ++ r)) (sym (append_assoc (show_nat a.1) (codes ")") tail))
        ∙ sym (append_assoc (show_ipv4 a.0) (port ++ shown) tail))

render-filter_expr :
    (x : Bytes × ℕ) (xs : List (Bytes × ℕ)) (y : Bytes × ℕ) (ys : List (Bytes × ℕ))
    → render (filter_expr x xs y ys) []
      ≡ filter_text (map exclude_text (x ∷ xs)) (map response_text (y ∷ ys))
unfolding filter_expr
render-filter_expr x xs y ys =
    let excludes = join (codes " or ") (map exclude_text (x ∷ xs)) in
    let responses = join (codes " or ") (map response_text (y ∷ ys)) in
    let inbound = codes ") or (udp and inbound and (" in
    let inbound_text = render-any_of response response_text response_prints y ys (codes "))") in
    let outbound_text = render-any_of excluded exclude_text (λ a t. refl) x xs _ in
    ap (λ r. codes "(udp and outbound and not (" ++ r)
      (outbound_text
        ∙ ap (λ r. excludes ++ (codes ")" ++ (inbound ++ r))) inbound_text
        ∙ sym (append_assoc excludes (codes ")") (inbound ++ (responses ++ codes "))"))))

uncons {ℓ} : {A : Type ℓ} (xs : List A) → 0 < length xs → (x : A) × (ys : List A) × (xs ≡ x ∷ ys)
uncons [] h = absurd (omega arith)
uncons (x ∷ xs) h = (x, xs, refl)

some_target : (targets : List SocketAddr) → 0 < length (v4_of targets) → 0 < length targets
some_target [] h = h
some_target (t ∷ ts) h = omega arith

-- With at least one listener on IPv4, the filter's text is the printed form of an expression that the
-- driver's language reads in one way, and that accepts exactly these of the packets as the driver shows
-- them: outbound UDP packets whose destination is the host of no bridge and of no local listener,
-- whatever the port, and inbound UDP packets from the address and port of a local listener. (Which
-- packets the driver shows as inbound is not part of it; listeners and bridges that are not on IPv4 are
-- left out.)
pub build_filter-wanted :
    (targets endpoints : List SocketAddr)
    → 0 < length (v4_of targets)
    → (e : Expr) × (build_filter targets endpoints ≡ ok (render e []))
      × (readable e ≡ true)
      × ((v : View) → holds e v ≡ wanted targets endpoints v)
build_filter-wanted targets endpoints some_v4 =
    let both = v4_of endpoints ++ v4_of targets in
    let more = length-append (v4_of endpoints) (v4_of targets) in
    let (x, xs, addresses) = uncons both (omega arith) in
    let (y, ys, listeners) = uncons (v4_of targets) some_v4 in
    let text = build_filter-text targets endpoints x xs addresses (some_target targets some_v4) in
    (
      filter_expr x xs y ys,
      text
          ∙ ap (λ r. ok (filter_text (map exclude_text (x ∷ xs)) (map response_text r))) listeners
          ∙ ap ok (sym (render-filter_expr x xs y ys)),
      filter_expr-readable x xs y ys,
      (λ v. rw (addresses, listeners) (holds-filter_expr x xs y ys v)),
    )
