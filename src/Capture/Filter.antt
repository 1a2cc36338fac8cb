-- ===== src/Capture/Filter.antt =====
-- `WinDivertCapture::build_filter`: the text of the driver's filter.
pub mod Language
pub mod Meaning
use lowping.Base.{
  ℕ, ◌≡◌, Bool, List, [], ◌∷◌, ◌++◌, map, length, Result, ok, err, ◌==◌, if◌then◌else◌,
}
use lowping.Base.Bytes.{Bytes}
use lowping.Net.{IpAddr, v4, v6, SocketAddr}
use lowping.Net.Show.{codes, show_nat, show_ipv4, join}
use lowping.Capture.{CaptureError, no_targets}

-- An entry for each IPv4 address; the others are passed over.
module _ {ℓ} {A : Type ℓ} (f : Bytes → ℕ → A) where
  abbrev pub entry : IpAddr → ℕ → List A → List A
  entry (v4 octets) port rest = f octets port ∷ rest
  entry (v6 octets) port rest = rest

  abbrev pub only_v4 : List SocketAddr → List A
  only_v4 [] = []
  only_v4 (addr ∷ addrs) = entry addr.ip addr.port (only_v4 addrs)

-- The two texts that the loops format.
abbrev pub exclude : Bytes → ℕ → Bytes
exclude octets port = codes "ip.DstAddr == " ++ show_ipv4 octets

abbrev pub response_from : Bytes → ℕ → Bytes
response_from octets port =
    codes "(ip.SrcAddr == "
    ++ (show_ipv4 octets ++ (codes " and udp.SrcPort == " ++ (show_nat port ++ codes ")")))

abbrev pub exclude_clause : List Bytes → Bytes
exclude_clause [] = []
exclude_clause (e ∷ es) = codes " and not (" ++ (join (codes " or ") (e ∷ es) ++ codes ")")

unfoldable pub build_filter : List SocketAddr → List SocketAddr → Result CaptureError Bytes
build_filter redirect_targets bridge_endpoints =
    if length redirect_targets == 0
    then err no_targets
    else let excludes = only_v4 exclude bridge_endpoints ++ only_v4 exclude redirect_targets in
      let inbound_clause = join (codes " or ") (only_v4 response_from redirect_targets) in
      ok (
        codes "(udp and outbound"
        ++ (exclude_clause excludes
            ++ (codes ") or (udp and inbound and (" ++ (inbound_clause ++ codes "))"))))
