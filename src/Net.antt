-- ===== src/Net.antt =====
-- std::net's addresses as plain data, with the equality that Rust derives.
pub mod Show
pub mod Text
use lowping.Base.{ℕ, ◌≡◌, ◌↔◌, Bool, true, false, ◌&&◌, arith, ◌==◌}
use lowping.Base.Bytes.{Bytes}
use lowping.Base.Eq.{Eq, nat_eq, list_beq, list_beq_iff}

-- An address by its octets: 4 or 16 of them.
pub data IpAddr : Type 0 where
  v4 : Bytes → IpAddr
  v6 : Bytes → IpAddr

pub record SocketAddr : Type 0 where
  pub ip : IpAddr
  pub port : ℕ

abbrev pub ip_beq : IpAddr → IpAddr → Bool
ip_beq (v4 a) (v4 b) = list_beq a b
ip_beq (v4 a) (v6 b) = false
ip_beq (v6 a) (v4 b) = false
ip_beq (v6 a) (v6 b) = list_beq a b

pub ip_beq_iff : (a b : IpAddr) → (ip_beq a b ≡ true) ↔ (a ≡ b)
ip_beq_iff (v4 a) (v4 b) = ground (arith, list_beq_iff a b)
ip_beq_iff (v4 a) (v6 b) = ((λ h. cc), (λ h. cc))
ip_beq_iff (v6 a) (v4 b) = ((λ h. cc), (λ h. cc))
ip_beq_iff (v6 a) (v6 b) = ground (arith, list_beq_iff a b)

abbrev pub addr_beq : SocketAddr → SocketAddr → Bool
addr_beq a b = ip_beq a.ip b.ip && a.port == b.port

pub addr_beq_iff : (a b : SocketAddr) → (addr_beq a b ≡ true) ↔ (a ≡ b)
addr_beq_iff a b = ground (arith, ip_beq_iff a.ip b.ip)

instance abbrev pub ip_eq : Eq IpAddr
ip_eq = record { beq = ip_beq; beq_iff = ip_beq_iff }

instance abbrev pub addr_eq : Eq SocketAddr
addr_eq = record { beq = addr_beq; beq_iff = addr_beq_iff }
