-- ===== src/Client/Tui/Loop.antt =====
-- When the loop of the dashboard ends, and how it leaves the terminal.
use lowping.Base.{
  ◌++◌, ◌⊎◌, ◌&&◌, not, ℕ, suc, ◌+◌, ◌≡◌, refl, ap, true, false, Bool-cases, List, [], ◌∷◌, length,
  inl, inr, arith,
}
use lowping.Client.Tui.{
  Event, no_event, other_event, key, char, esc, other_key, Round, End, Screen, Steps, draw_failed,
  event_failed, drew, is_quit, quit, io_error, running, run_loop, run,
}

-- A press of `q` or of Esc.
abbrev pub Quits : Event → Type 0
Quits e = (e ≡ key true (char 0x71)) ⊎ (e ≡ key true esc)

is_quit→Quits : (e : Event) → is_quit e ≡ true → Quits e
is_quit→Quits no_event h = absurd cc
is_quit→Quits other_event h = absurd cc
is_quit→Quits (key false c) h = absurd cc
is_quit→Quits (key true (char c)) h = let same : c ≡ 0x71 = ground arith in inl (rw same refl)
is_quit→Quits (key true esc) h = inr refl
is_quit→Quits (key true other_key) h = absurd cc

Quits→is_quit : (e : Event) → Quits e → is_quit e ≡ true
Quits→is_quit e (inl q) = rw q refl
Quits→is_quit e (inr x) = rw x refl

quiet : (e : Event) → is_quit e ≡ false → ¬ Quits e
quiet e other q = let pressed = Quits→is_quit e q in cc

-- The rounds before one that ends the loop: each drew, and its event was not `q` or Esc.
abbrev pub Waiting : List Round → Type 0
Waiting [] = Unit {0}
Waiting (draw_failed ∷ rounds) = ¬ (Unit {0})
Waiting (event_failed ∷ rounds) = ¬ (Unit {0})
Waiting (drew e ∷ rounds) = (¬ Quits e) × Waiting rounds

-- A round that ends the loop.
abbrev pub Ends : Round → Type 0
Ends draw_failed = Unit {0}
Ends event_failed = Unit {0}
Ends (drew e) = Quits e

abbrev pub ending : ℕ → Round → ℕ × End
ending n draw_failed = (n, io_error)
ending n event_failed = (n + 1, io_error)
ending n (drew e) = (n + 1, quit)

-- The loop ended at the first round that ends it, or it waits.
abbrev pub Outcome : List Round → Type 0
Outcome rounds =
    (Waiting rounds × (run_loop rounds ≡ (length rounds, running)))
    ⊎ ((before : List Round) × (last : Round) × (rest : List Round) × (rounds
          ≡ before ++ last ∷ rest)
        × Waiting before
        × Ends last
        × (run_loop rounds ≡ ending (length before) last))

ending-suc :
    (n : ℕ) (last : Round) → ((ending n last).0 + 1, (ending n last).1) ≡ ending (suc n) last
ending-suc n draw_failed = ap (λ k. (k, io_error)) (omega arith)
ending-suc n event_failed = ap (λ k. (k, io_error)) (omega arith)
ending-suc n (drew e) = ap (λ k. (k, quit)) (omega arith)

later :
    (e : Event) (rounds : List Round)
    → is_quit e ≡ false
    → Outcome rounds
    → Outcome (drew e ∷ rounds)
unfolding run_loop
later e rounds other (inl (waiting, same)) =
    inl ((quiet e other, waiting), rw (other, same) (ap (λ n. (n, running)) (omega arith)))
later e rounds other (inr (before, last, rest, split, waiting, ends, same)) = inr (
  drew e ∷ before,
  last,
  rest,
  ap (λ r. drew e ∷ r) split,
  (quiet e other, waiting),
  ends,
  rw (other, same) (ending-suc (length before) last),
)

-- The loop draws once in each round, until it ends: at the first round in which the terminal fails or
-- `q` or Esc is pressed. The release of a key and any other event do not end it; and where no such round
-- comes, it goes on.
pub run_loop-Outcome : (rounds : List Round) → Outcome rounds
unfolding run_loop
run_loop-Outcome [] = inl (tt, refl)
run_loop-Outcome (draw_failed ∷ rounds) = inr ([], draw_failed, rounds, refl, tt, tt, refl)
run_loop-Outcome (event_failed ∷ rounds) = inr ([], event_failed, rounds, refl, tt, tt, refl)
run_loop-Outcome (drew e ∷ rounds) = elim (Bool-cases (is_quit e)) [
  | inl pressed ↦ inr ([], drew e, rounds, refl, tt, is_quit→Quits e pressed, rw pressed refl)
  | inr other ↦ later e rounds other (run_loop-Outcome rounds)
]

-- However the loop ends, the terminal that started in line mode is in raw mode afterwards exactly where
-- raw mode was enabled and one of the next steps failed: the two that finish the setup, or the one that
-- leaves raw mode.
pub run_raw_mode :
    (steps : Steps) (rounds : List Round) (screen : Screen)
    → screen.raw_mode ≡ false
    → (run steps rounds screen).0.raw_mode ≡ (
        steps.enable_raw_mode
        && not (steps.enter_alternate && steps.new_terminal && steps.disable_raw_mode))
unfolding run
run_raw_mode steps rounds screen cooked = ground arith

-- Where every step succeeds, `run` ends as its loop does, and leaves the terminal in line mode, on the
-- main screen, with its cursor.
pub run-restores :
    (rounds : List Round) (screen : Screen)
    → let steps : Steps = record {
      enable_raw_mode = true;
      enter_alternate = true;
      new_terminal = true;
      disable_raw_mode = true;
      leave_alternate = true;
      show_cursor = true;
    } in
      run steps rounds screen
      ≡ (record { raw_mode = false; alternate = false; cursor = true }, (run_loop rounds).1)
unfolding run
run-restores rounds screen = refl
