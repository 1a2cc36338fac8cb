-- ===== src/Lib.antt =====
-- lowping: a low-latency tunnel for game traffic. A game's UDP packets are captured on the player's
-- machine, sealed by the client, relayed by a bridge to the game server, and the answers come back the
-- same way. A backend gives out access tokens and a signed directory of bridges.
--
-- How the parts meet: `Capture` redirects a packet to a local listener of the client and remembers where
-- it was bound; `Client` opens a tunnel there with a SYN that carries the token and a CONNECT request;
-- `Bridge` checks the SYN, opens the destination and forwards the data frames behind it; what the
-- destination sends goes back in frames of the same session. `EndToEnd` puts these together, and
-- `EndToEnd/Captured` starts from the captured packet, `EndToEnd/Stream` from a local TCP connection, and
-- `EndToEnd/Setup` from the generation of the keys.
--
-- Files and code:
-- - Protocol, Protocol/*: crates/gr-protocol/src/lib.rs (header, frames, CONNECT), handshake.rs,
--   license.rs, fec.rs, a module for each.
-- - Bridge, Bridge/*: crates/gr-bridge/src/server.rs and session.rs. `BridgeState` is the struct of that
--   name, a handler takes it and returns it; `Run` is the event loop, `Races` the handlers that overlap
--   at the await on the destination, `Setup` the configuration, the keys and the start (config.rs, main.rs).
-- - Backend, Backend/*: crates/gr-backend/src/state.rs, routes.rs, directory.rs, main.rs; `Routes` is the
--   table of routes and the answers, `Setup` the configuration and the start.
-- - Client, Client/Tunnel, Client/Udp: `open_tunnel` and the UDP loops of crates/gr-client/src/forwarder.rs
--   and smart.rs. Client/Listener: the listeners of smart.rs. Client/Tcp: the TCP loops of
--   forwarder.rs, Client/Connection what runs them. Client/Modes: what forwarder.rs, smart.rs and
--   main.rs bring up for a configuration, Client/Modes/Reading and Client/Modes/Written the rules of
--   the configuration file.
--   Client/Router, Client/Router/*: router.rs and the resolver of smart.rs. Client/Tui: the dashboard of
--   tui.rs.
-- - Capture, Capture/*: crates/gr-capture/src/lib.rs and windivert_backend.rs; Capture/Filter is the text
--   of the driver's filter, read back as an expression, Capture/Switch the constructors, start and stop,
--   Capture/Loop the capture loop.
-- - Settings, Settings/*: crates/gr-common/src/lib.rs. `Serde` has TOML values, the toml crate as an
--   interface, and what serde's derives read; the other crates' configurations use it.
-- - Examples, Examples/*: crates/gr-capture/examples, fnscan.rs and sniff.rs.
-- - Aws, Aws/*: crates/gr-common/src/aws_regions.rs. `Search` has the law of the binary search, `Walk` the
--   scan that the walk is compared with, `Lookup` the lookup, `Load` the loading of the table.
-- - Crypto: the cryptographic crates, as interfaces with their documented laws; Crypto/Toys has small
--   instances. Net: std::net's addresses, and texts. Base: lists, bytes, machine integers, maps, results.
-- - Tests: runs at concrete inputs.
--
-- Numbers: machine integers are naturals with the wrap-around written out (`% 2 ^ 64` for the frame
-- counters), signed times are integers in the range of `i64`, `f64` is an interface. The loops of the
-- source are structural recursion over lists; a TOML table is the function that looks a key up; printing a
-- number takes `n + 1` rounds of fuel, and each round divides by ten.
--
-- Not modelled: sockets, clocks and random numbers (arguments of the operations), tasks that run for
-- ever (lists of what they meet), logging, the reading of arguments, the texts of TOML and JSON, the
-- panics of `Instant` where a reaper's cutoff lies before the start of the clock,
-- the WinDivert driver, the terminal library, the variants for systems other than Windows, the command
-- line of gr-cli, whose commands are yet to be written, and what the examples print of their progress.
pub mod Base
pub mod Crypto
pub mod Net
pub mod Protocol
pub mod Bridge
pub mod Backend
pub mod Client
pub mod Capture
pub mod EndToEnd
pub mod Tests
pub mod Aws
pub mod Settings
pub mod Examples
