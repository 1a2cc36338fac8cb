-- ===== src/Client/Tui.antt =====
-- crates/gr-client/src/tui.rs: the dashboard, as the texts and styles that it hands to the widgets, and
-- the loop around it. Texts are code points. The formatting of an `f64` and of an address is a
-- parameter, as are the terminal's answers; the height that an area gets is the library's answer.
pub mod Rows
pub mod Loop
use Prim.Native.String.{String}
use lowping.Base.{
  ℕ, ◌+◌, ◌-◌, ◌*◌, ◌/◌, ◌<◌, ◌≡◌, Bool, true, false, not, List, [], ◌∷◌, ◌++◌, map, length, Option,
  none, some, ltb, ◌==◌, if◌then◌else◌,
}
use lowping.Base.Bytes.{Bytes}
use lowping.Base.Eq.{nat_eq, list_eq}
use lowping.Base.Dict.{Dict, get}
use lowping.Net.{SocketAddr}
use lowping.Net.Show.{codes, show_nat}
use lowping.Capture.{RedirectStats}
use lowping.Client.Router.{
  BridgeEntry, DecisionLog, Route, Router, direct, via_bridge, recent_decisions,
}
use lowping.Client.Router.Millis.{Float}

pub data Color : Type 0 where
  black cyan dark_gray gray green magenta red white yellow : Color

pub record Style : Type 0 where
  pub fg : Option Color
  pub bg : Option Color
  pub bold : Bool
  pub dim : Bool

-- A cell of a table or a span of a line.
pub record Cell : Type 0 where
  pub text : Bytes
  pub style : Style

abbrev pub plain : Style
plain = record { fg = none; bg = none; bold = false; dim = false }

abbrev pub colored : Color → Style
colored c = record plain { fg = some c }

abbrev pub bold_colored : Color → Style
bold_colored c = record plain { fg = some c; bold = true }

abbrev pub bold_text : String → Cell
bold_text s = record { text = codes s; style = record plain { bold = true } }

abbrev pub span : Bytes → Style → Cell
span text style = record { text = text; style = style }

unfoldable pub draw_header : List Cell
draw_header =
    span (codes " lowping ") (record { fg = some black; bg = some cyan; bold = true; dim = false })
    ∷ span (codes " live route picker ") (record plain { dim = true })
    ∷ []

unfoldable pub draw_footer : List Cell
draw_footer =
    span (codes " q ") (record plain { fg = some white; bg = some dark_gray })
    ∷ span (codes " quit  ") plain
    ∷ span (codes " updates 4×/sec ") (colored dark_gray)
    ∷ []

-- A table: its title, its header and its rows.
pub record Table : Type 0 where
  pub title : Bytes
  pub header : List Cell
  pub widths : List ℕ
  pub rows : List (List Cell)

-- The age of a decision, in whole seconds.
unfoldable pub when_text : ℕ → Bytes
when_text age =
    if ltb age 60
    then show_nat age ++ codes "s"
    else if ltb age 3600
    then show_nat (age / 60) ++ codes "m"
    else show_nat (age / 3600) ++ codes "h"

abbrev pub stats_or_default : Option RedirectStats → RedirectStats
stats_or_default none = record {
  outbound_redirected = 0;
  inbound_rewritten = 0;
  dropped_unparseable = 0;
  active_flows = 0;
}
stats_or_default (some s) = s

-- A block of lines under a title.
pub record Panel : Type 0 where
  pub title : Bytes
  pub lines : List (List Cell)

unfoldable pub stats_lines : Option RedirectStats → List (List Cell)
stats_lines capture =
    let stats = stats_or_default capture in
    (span (codes "outbound rewrites: ") plain
      ∷ span (show_nat stats.outbound_redirected) (bold_colored green)
      ∷ span (codes "    inbound rewrites: ") plain
      ∷ span (show_nat stats.inbound_rewritten) (bold_colored green)
      ∷ [])
    ∷ (span (codes "dropped (unparseable): ") plain
        ∷ span (show_nat stats.dropped_unparseable) (colored yellow)
        ∷ span (codes "    active flows: ") plain
        ∷ span (show_nat stats.active_flows) (bold_colored cyan)
        ∷ [])
    ∷ (elim capture [
      | some s ↦ span (codes "capture: ") plain ∷ span (codes "ARMED") (bold_colored green) ∷ []
      | none ↦ span (codes "capture: ") plain ∷ span (codes "not started") (colored red) ∷ []
    ])
    ∷ []

unfoldable pub draw_stats : Option RedirectStats → Panel
draw_stats capture = record { title = codes " capture stats "; lines = stats_lines capture }

-- The heights of the five areas.
pub data Constraint : Type 0 where
  fixed_length at_least : ℕ → Constraint

abbrev pub layout : List Constraint
layout = fixed_length 1 ∷ fixed_length 7 ∷ at_least 8 ∷ fixed_length 5 ∷ fixed_length 1 ∷ []

-- How an `f64` and an address are shown, and which numbers are finite.
pub record Format (f : Float) : Type 0 where
  pub lit : ℕ → f.F
  pub is_finite : f.F → Bool
  pub fixed : f.F → Bytes
  pub addr : SocketAddr → Bytes

module _ (f : Float) (fmt : Format f) where
  open f use {F, lt}

  abbrev pub rtt_text : Option F → Bytes
  rtt_text (some r) = fmt.fixed r ++ codes " ms"
  rtt_text none = codes "  --   "

  abbrev pub rtt_style : Option F → Style
  rtt_style (some r) =
      if lt r (fmt.lit 30)
      then colored green
      else if lt r (fmt.lit 60)
      then colored yellow
      else colored red
  rtt_style none = colored dark_gray

  unfoldable pub bridge_row : Dict Bytes F → BridgeEntry f → List Cell
  bridge_row pings b =
      let rtt = get b.name pings in
      span b.name (record plain { bold = true })
      ∷ span (fmt.addr b.endpoint) plain
      ∷ span (rtt_text rtt) (rtt_style rtt)
      ∷ span (codes ":" ++ show_nat b.listen_port) (colored dark_gray)
      ∷ []

  -- `client_rtt_snapshot`
  unfoldable pub client_rtt_snapshot : Router f → Dict Bytes F
  client_rtt_snapshot r = r.client_to_bridge_ms

  -- `cache_size`
  unfoldable pub cache_size : Router f → ℕ
  cache_size r = length r.cache

  unfoldable pub draw_bridges : Router f → Table
  draw_bridges r =
      let pings = client_rtt_snapshot r in
      record {
        title = codes " bridges ";
        header =
            bold_text "name"
            ∷ bold_text "endpoint"
            ∷ span (codes "client→bridge") (bold_colored cyan)
            ∷ bold_text "listen"
            ∷ [];
        widths = 12 ∷ 28 ∷ 15 ∷ 8 ∷ [];
        rows = map (bridge_row pings) r.bridges;
      }

  abbrev pub millis : F → Bytes
  millis ms = if fmt.is_finite ms then fmt.fixed ms ++ codes "ms" else codes "  --  "

  abbrev pub or_text : Option Bytes → Bytes → Bytes
  or_text none text = text
  or_text (some region) text = region

  abbrev pub route_cell : Route → Option Bytes → Cell
  route_cell direct name = span (codes "direct") (colored gray)
  route_cell (via_bridge i) name = span (codes "→ " ++ or_text name []) (bold_colored green)

  unfoldable pub decision_row : ℕ → DecisionLog f → List Cell
  decision_row now d =
      span (when_text (now - d.at)) (colored dark_gray)
      ∷ span (fmt.addr d.dest) plain
      ∷ span (or_text d.region (codes "-")) (colored magenta)
      ∷ span (millis d.direct_rtt_ms) plain
      ∷ span (millis d.via_bridge_rtt_ms) plain
      ∷ route_cell d.route d.bridge_name
      ∷ []

  -- The table in an area of this height.
  unfoldable pub draw_decisions : ℕ → ℕ → Router f → Table
  draw_decisions height now r =
      let recent = recent_decisions f r (height - 3) in
      record {
        title =
            codes " route decisions ("
            ++ (show_nat (cache_size r)
                ++ (codes " cached, " ++ (show_nat (length recent) ++ codes " recent) ")));
        header =
            bold_text "when"
            ∷ bold_text "destination"
            ∷ bold_text "region"
            ∷ bold_text "direct"
            ∷ bold_text "via bridge"
            ∷ bold_text "→ route"
            ∷ [];
        widths = 6 ∷ 24 ∷ 12 ∷ 10 ∷ 12 ∷ 20 ∷ [];
        rows = map (decision_row now) recent;
      }

  -- What is drawn in the five areas, given the height of the third.
  pub record Dashboard : Type 0 where
    pub constraints : List Constraint
    pub header : List Cell
    pub bridges : Table
    pub decisions : Table
    pub stats : Panel
    pub footer : List Cell

  unfoldable pub draw_dashboard : ℕ → ℕ → Router f → Option RedirectStats → Dashboard
  draw_dashboard height now r capture = record {
    constraints = layout;
    header = draw_header;
    bridges = draw_bridges r;
    decisions = draw_decisions height now r;
    stats = draw_stats capture;
    footer = draw_footer;
  }

-- What happens in one round of the loop: the answer of `draw`, and then the event that `poll` and `read`
-- give, if one does. Only presses of a key can end the loop.
pub data KeyCode : Type 0 where
  char : ℕ → KeyCode
  esc other_key : KeyCode

pub data Event : Type 0 where
  no_event other_event : Event
  key : Bool → KeyCode → Event

pub data Round : Type 0 where
  draw_failed event_failed : Round
  drew : Event → Round

-- How the loop ends; `running` if it waits for the next round.
pub data End : Type 0 where
  quit io_error running : End

abbrev pub is_quit : Event → Bool
is_quit (key true (char c)) = if c == 0x71 then true else false
is_quit (key true esc) = true
is_quit _ = false

-- `run_loop`: how often it drew, and how it ends.
unfoldable pub run_loop : List Round → ℕ × End
run_loop [] = (0, running)
run_loop (draw_failed ∷ rounds) = (0, io_error)
run_loop (event_failed ∷ rounds) = (1, io_error)
run_loop (drew e ∷ rounds) =
    let (drawn, end) = run_loop rounds in if is_quit e then (1, quit) else (drawn + 1, end)

-- The terminal's modes.
pub record Screen : Type 0 where
  pub raw_mode : Bool
  pub alternate : Bool
  pub cursor : Bool

-- Whether the steps before and after the loop succeed.
pub record Steps : Type 0 where
  pub enable_raw_mode : Bool
  pub enter_alternate : Bool
  pub new_terminal : Bool
  pub disable_raw_mode : Bool
  pub leave_alternate : Bool
  pub show_cursor : Bool

-- `run`: the terminal that is left, and how it ended. Drawing hides the cursor.
unfoldable pub run : Steps → List Round → Screen → Screen × End
run steps rounds screen =
    if not steps.enable_raw_mode
    then (screen, io_error)
    else let raw = record screen { raw_mode = true } in
      if not steps.enter_alternate
      then (raw, io_error)
      else let entered = record raw { alternate = true } in
        if not steps.new_terminal
        then (entered, io_error)
        else let result = (run_loop rounds).1 in
          let used = record entered { cursor = false } in
          if not steps.disable_raw_mode
          then (used, io_error)
          else let cooked = record used { raw_mode = false } in
            if not steps.leave_alternate
            then (cooked, io_error)
            else let left = record cooked { alternate = false } in
              if not steps.show_cursor
              then (left, io_error)
              else (record left { cursor = true }, result)
