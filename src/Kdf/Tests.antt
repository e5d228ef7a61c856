-- ===== src/Kdf/Tests.antt =====
-- Runs of the admission, and its theorems at concrete inputs.
use big_project.Common.{true, arith, ◌≡◌, refl, List, [], ◌∷◌}
use big_project.Kdf.{
  ends, Kdf, Event, arrives, init, acquire, finish, time_out, release, remove, step, run,
}
use big_project.Kdf.Liveness.{is_served, is_served-run}
use big_project.Kdf.Invariant.{IsValid, run-IsValid}

program : Unit {0}
unfolding run step acquire finish time_out release remove
program = tt

abbrev six : List Event
six = arrives 1 ∷ arrives 2 ∷ arrives 3 ∷ arrives 4 ∷ arrives 5 ∷ arrives 6 ∷ []

abbrev waiting : Kdf
waiting = run init six

five_gets_slot_of_two : (finish waiting 2).running ≡ 5 ∷ 4 ∷ 3 ∷ 1 ∷ []
unfolding program
five_gets_slot_of_two = refl

six_times_out : (time_out waiting 6).queue ≡ 5 ∷ []
unfolding program
six_times_out = refl

run-IsValid_example : IsValid (run init six)
run-IsValid_example = run-IsValid six

-- The sixth job waits behind the fifth.
is_served-run_example : is_served 6 (run waiting (ends 2 ∷ arrives 7 ∷ ends 1 ∷ [])) ≡ true
unfolding program
is_served-run_example =
    is_served-run waiting (ends 2 ∷ arrives 7 ∷ ends 1 ∷ []) 6 (5 ∷ []) [] (run-IsValid six) refl
      refl (omega arith)
