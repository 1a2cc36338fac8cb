-- ===== src/Protocol/Connect.antt =====
-- The CONNECT request of crates/gr-protocol/src/lib.rs: `[proto] [addrlen] [addr] [port]`.
pub mod RoundTrip
use lowping.Base.{
  ℕ, ◌+◌, ◌^◌, ◌≤◌, ◌<◌, ◌≡◌, refl, ap, ◌∙◌, sym, Bool, ◌||◌, not, List, ◌∷◌, ◌++◌, length, take,
  drop, slice, get_or, Option, some, none, Result, ok, err, bail_if, ok_or, ◌>>=◌, ◌>>◌,
  if◌then◌else◌, ◌==◌, ltb, arith, append_assoc, take-append, drop-append, length-append,
}
use lowping.Base.Bytes.{Bytes, IsBytes, to_be, from_be, from_be-to_be, length-to_be}
use lowping.Net.{IpAddr, v4, v6}
use lowping.Protocol.{ProtocolError, truncated}

pub data TransportProtocol : Type 0 where
  tcp udp : TransportProtocol

-- `self.protocol as u8`
abbrev pub to_byte : TransportProtocol → ℕ
to_byte tcp = 1
to_byte udp = 2

abbrev pub from_byte : ℕ → Option TransportProtocol
from_byte b = if b == 1 then some tcp else if b == 2 then some udp else none

pub record ConnectRequest : Type 0 where
  pub protocol : TransportProtocol
  pub dest_ip : IpAddr
  pub dest_port : ℕ

abbrev pub addr_bytes : IpAddr → Bytes
addr_bytes (v4 octets) = octets
addr_bytes (v6 octets) = octets

abbrev pub addr_len : IpAddr → ℕ
addr_len (v4 octets) = 4
addr_len (v6 octets) = 16

unfoldable pub encode : ConnectRequest → Bytes
encode c = to_byte c.protocol ∷ addr_len c.dest_ip ∷ (addr_bytes c.dest_ip ++ to_be 2 c.dest_port)

unfoldable pub decode : Bytes → Result ProtocolError ConnectRequest
decode buf = do
  bail_if (ltb (length buf) 4) (truncated (length buf) 4)
  protocol ← ok_or (from_byte (get_or buf 0 0)) (truncated (length buf) 4)
  let n = get_or buf 1 0
  bail_if (not (n == 4 || n == 16)) (truncated (length buf) (4 + n))
  let need = 2 + n + 2
  bail_if (ltb (length buf) need) (truncated (length buf) need)
  let dest_ip = if n == 4 then v4 (slice 2 6 buf) else v6 (slice 2 18 buf)
  let port_off = 2 + n
  let dest_port = from_be (slice port_off (port_off + 2) buf)
  ok (record { protocol = protocol; dest_ip = dest_ip; dest_port = dest_port })

-- The address has as many octets as its kind says, and the port is a `u16`.
pub record IsValid (c : ConnectRequest) : Type 0 where
  pub octets : length (addr_bytes c.dest_ip) ≡ addr_len c.dest_ip
  pub octets_bytes : IsBytes (addr_bytes c.dest_ip)
  pub port_u16 : c.dest_port < 2 ^ 16
