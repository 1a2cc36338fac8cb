-- ===== src/Tests/Dashboard.antt =====
-- The dashboard on one router, and the loop on a few events.
use lowping.Base.{◌≡◌, refl, true, false, List, [], ◌∷◌}
use lowping.Net.Show.{codes, show_nat, digits}
use lowping.Client.Tui.{Round, Screen, Steps, drew, key, char, esc, run, run_loop, when_text, quit}
use lowping.Client.Tui.Loop.{Outcome, run_loop-Outcome, run_raw_mode}

one_minute : when_text 65 ≡ codes "1m"
unfolding when_text show_nat digits
one_minute = refl

-- The release of q, then a press of Esc.
abbrev rounds : List Round
rounds = drew (key false (char 0x71)) ∷ drew (key true esc) ∷ drew (key true (char 0x71)) ∷ []

run_loop-Outcome_example : Outcome rounds
run_loop-Outcome_example = run_loop-Outcome rounds

drawn_twice : run_loop rounds ≡ (2, quit)
unfolding run_loop
drawn_twice = refl

abbrev steps : Steps
steps = record {
  enable_raw_mode = true;
  enter_alternate = false;
  new_terminal = true;
  disable_raw_mode = true;
  leave_alternate = true;
  show_cursor = true;
}

abbrev screen : Screen
screen = record { raw_mode = false; alternate = false; cursor = true }

run_raw_mode_example : (run steps rounds screen).0.raw_mode ≡ true
run_raw_mode_example = run_raw_mode steps rounds screen refl
