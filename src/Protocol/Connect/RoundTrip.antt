-- ===== src/Protocol/Connect/RoundTrip.antt =====
-- The two directions of the CONNECT request's round trip.
use lowping.Base.{
  ℕ, ◌+◌, ◌^◌, ◌≤◌, ◌⊎◌, inl, inr, ◌<◌, ◌≡◌, refl, ap, ◌∙◌, [], ◌∷◌, ◌++◌, length, take, drop, ok,
  arith, append_assoc, take-append, drop-append, length-append, length-take, length-drop, All-take,
  All-drop, take-append-take,
}
use lowping.Base.Bytes.{
  Bytes, IsBytes, to_be, from_be, from_be-to_be, length-to_be, from_be-lt_at, to_be-from_be_at,
}
use lowping.Net.{IpAddr, v4, v6}
use lowping.Protocol.Connect.{
  ConnectRequest, TransportProtocol, IsValid, encode, decode, to_byte, addr_len,
}

-- The address and the port behind the two leading bytes.
fields :
    (n : ℕ) (addr port rest : Bytes)
    → length addr ≡ n
    → length port ≡ 2
    → (take n ((addr ++ port) ++ rest) ≡ addr) × (take 2 (drop n ((addr ++ port) ++ rest)) ≡ port)
fields n addr port rest h k =
    let apart = append_assoc addr port rest in
    (
      ap (take n) apart ∙ take-append n addr (port ++ rest) h,
      ap (λ r. take 2 (drop n r)) apart
          ∙ ap (take 2) (drop-append n addr (port ++ rest) h)
          ∙ take-append 2 port rest k,
    )

encoded_length :
    (addr port rest : Bytes)
    → length ((addr ++ port) ++ rest) ≡ length addr + length port + length rest
encoded_length addr port rest =
    omega (arith, length-append (addr ++ port) rest, length-append addr port)

-- The two kinds of address, on the encoded bytes.
decode-encode_v4 :
    (p : TransportProtocol) (o : Bytes) (n : ℕ) (rest : Bytes)
    → length o ≡ 4
    → n < 2 ^ 16
    → decode (to_byte p ∷ 4 ∷ ((o ++ to_be 2 n) ++ rest))
      ≡ ok (record { protocol = p; dest_ip = v4 o; dest_port = n })
unfolding decode
decode-encode_v4 p o n rest h k =
    let (addr, port) = fields 4 o (to_be 2 n) rest h (length-to_be 2 n) in
    let size = encoded_length o (to_be 2 n) rest in
    let back = from_be-to_be 2 n (omega arith) in ground (arith, length-to_be 2 n)

decode-encode_v6 :
    (p : TransportProtocol) (o : Bytes) (n : ℕ) (rest : Bytes)
    → length o ≡ 16
    → n < 2 ^ 16
    → decode (to_byte p ∷ 16 ∷ ((o ++ to_be 2 n) ++ rest))
      ≡ ok (record { protocol = p; dest_ip = v6 o; dest_port = n })
unfolding decode
decode-encode_v6 p o n rest h k =
    let (addr, port) = fields 16 o (to_be 2 n) rest h (length-to_be 2 n) in
    let size = encoded_length o (to_be 2 n) rest in
    let back = from_be-to_be 2 n (omega arith) in ground (arith, length-to_be 2 n)

decode-encode_at :
    (p : TransportProtocol) (a : IpAddr) (n : ℕ) (rest : Bytes)
    → IsValid (record { protocol = p; dest_ip = a; dest_port = n })
    → decode (encode (record { protocol = p; dest_ip = a; dest_port = n }) ++ rest)
      ≡ ok (record { protocol = p; dest_ip = a; dest_port = n })
unfolding encode
decode-encode_at p (v4 o) n rest v = decode-encode_v4 p o n rest v.octets v.port_u16
decode-encode_at p (v6 o) n rest v = decode-encode_v6 p o n rest v.octets v.port_u16

-- Decoding an encoded request gives it back, for both protocols and both kinds of address, whatever
-- follows it.
pub decode-encode :
    (c : ConnectRequest) (rest : Bytes) → IsValid c → decode (encode c ++ rest) ≡ ok c
decode-encode c rest v = decode-encode_at c.protocol c.dest_ip c.dest_port rest v

-- An accepted request has one of two address lengths.
accepted_length :
    (a n : ℕ) (bs : Bytes) (c : ConnectRequest) → decode (a ∷ n ∷ bs) ≡ ok c → (n ≡ 4) ⊎ (n ≡ 16)
unfolding decode
accepted_length a n bs c e = ground arith

accepted_v4 :
    (a : ℕ) (bs : Bytes) (c : ConnectRequest)
    → decode (a ∷ 4 ∷ bs) ≡ ok c
    → (6 ≤ length bs)
      × (a ≡ to_byte c.protocol)
      × (c.dest_ip ≡ v4 (take 4 bs))
      × (c.dest_port ≡ from_be (take 2 (drop 4 bs)))
unfolding decode
accepted_v4 a bs c e = ground arith

accepted_v6 :
    (a : ℕ) (bs : Bytes) (c : ConnectRequest)
    → decode (a ∷ 16 ∷ bs) ≡ ok c
    → (18 ≤ length bs)
      × (a ≡ to_byte c.protocol)
      × (c.dest_ip ≡ v6 (take 16 bs))
      × (c.dest_port ≡ from_be (take 2 (drop 16 bs)))
unfolding decode
accepted_v6 a bs c e = ground arith

-- Address and port, put together again.
joined :
    (n k : ℕ) (bs : Bytes)
    → n + 2 ≡ k
    → k ≤ length bs
    → IsBytes bs
    → (take n bs ++ to_be 2 (from_be (take 2 (drop n bs))) ≡ take k bs)
      × (length (take n bs) ≡ n)
      × (from_be (take 2 (drop n bs)) < 2 ^ 16)
joined n k bs h long bytes =
    let tail = All-take (λ b. b < 256) 2 (drop n bs) (All-drop (λ b. b < 256) n bs bytes) in
    let size : length (take 2 (drop n bs)) ≡ 2 =
      omega (arith, length-take 2 (drop n bs), length-drop n bs) in
    (
      rw (to_be-from_be_at 2 (take 2 (drop n bs)) size tail) (take-append-take n 2 k bs h),
      omega (arith, length-take n bs),
      omega (arith, from_be-lt_at 2 (take 2 (drop n bs)) size tail),
    )

-- A request that was accepted from a byte string is valid, and its encoding is the string's front.
pub encode-decode :
    (buf : Bytes) (c : ConnectRequest)
    → IsBytes buf
    → decode buf ≡ ok c
    → IsValid c × (encode c ≡ take (4 + addr_len c.dest_ip) buf)
unfolding encode
encode-decode [] c bytes e = absurd (unfold decode in ground arith)
encode-decode (a ∷ []) c bytes e = absurd (unfold decode in ground arith)
encode-decode (a ∷ n ∷ bs) c bytes e = elim (accepted_length a n bs c e) [
  | inl four ↦
      let (long, proto, ip, port) = accepted_v4 a bs c (rw four at e) in
      let (whole, size, small) = joined 4 6 bs refl long bytes.1.1 in
      (
        record {
          octets = rw ip size;
          octets_bytes = rw ip (All-take (λ b. b < 256) 4 bs bytes.1.1);
          port_u16 = rw port small;
        },
        rw (ip, port, ← proto, four) (ap (λ r. a ∷ 4 ∷ r) whole),
      )
  | inr sixteen ↦
      let (long, proto, ip, port) = accepted_v6 a bs c (rw sixteen at e) in
      let (whole, size, small) = joined 16 18 bs refl long bytes.1.1 in
      (
        record {
          octets = rw ip size;
          octets_bytes = rw ip (All-take (λ b. b < 256) 16 bs bytes.1.1);
          port_u16 = rw port small;
        },
        rw (ip, port, ← proto, sixteen) (ap (λ r. a ∷ 16 ∷ r) whole),
      )
]
