-- ===== src/Client/Modes/Rules.antt =====
-- The rules that `install_capture` makes, and what their resolver answers.
use Prim.Native.String.{String}
use lowping.Base.{Bool, false, ◌&&◌, List, [], ◌∷◌, Option, none, some, leb, if◌then◌else◌}
use lowping.Net.{ip_beq, SocketAddr}
use lowping.Capture.{
  Protocol, RedirectRule, RouteAction, passthrough, rewrite_to, protocol_beq, resolve_fixed,
}
use lowping.Capture.Switch.{WinDivertCapture}
use lowping.Client.Modes.{Rule, protocol_of, unwrap_or}

-- The configuration asks for this traffic to be captured by this rule.
abbrev pub asks_for : SocketAddr → Protocol → Rule → Bool
asks_for dst protocol rule =
    let lo = unwrap_or rule.capture_dst_port_lo rule.dest_port in
    let hi = unwrap_or rule.capture_dst_port_hi lo in
    rule.capture
    && (elim (protocol_of rule.protocol) [ none ↦ false | some p ↦ protocol_beq p protocol ])
    && ip_beq (unwrap_or rule.capture_dst_ip rule.dest_ip) dst.ip
    && leb lo dst.port
    && leb dst.port hi

-- The reference: the first rule of the configuration that asks for the traffic gets it.
abbrev pub first_asking : SocketAddr → Protocol → List Rule → RouteAction
first_asking dst protocol [] = passthrough
first_asking dst protocol (rule ∷ rules) =
    if asks_for dst protocol rule then rewrite_to rule.listen else first_asking dst protocol rules

-- What the resolver of the installed capture answers for a packet that reaches it; without a capture, a
-- packet passes.
abbrev pub routed :
    Option (WinDivertCapture (List RedirectRule)) → SocketAddr → Protocol → RouteAction
routed none dst protocol = passthrough
routed (some cap) dst protocol = resolve_fixed cap.resolver dst protocol
