-- ===== src/Watchdog/Inv.antt =====
-- What holds between the threads of the watchdog, cli/running/watchdog.go, in every state.
use tt.Prelude.{
  ◌≤◌, ◌≡◌, refl, Bool, true, false, none, some, List, [], ◌∷◌, arith, Bool-cases, inl, inr,
}
use tt.Watchdog.{
  Main, creating, preparing, leaving, starting, waiting, joining, deciding, sleeping, recreating,
  returned, Routine, absent, running, stopping, Watchdog, Answers, new_watchdog, is_absent, is_stop,
  joined, main_step, handler_step, start_routines, start_instance, decide_restart, take_signal,
  leave, Event, main_moves, handler_moves, handler_leaves, checker_leaves, check_fails,
  instance_ends, signal_comes, step, run,
}

-- The main thread stands where no handler may run, and where a stop was ruled out.
abbrev pub is_between : Main → Bool
is_between creating = true
is_between preparing = false
is_between leaving = false
is_between starting = false
is_between waiting = false
is_between joining = false
is_between deciding = true
is_between sleeping = true
is_between recreating = true
is_between returned = false

abbrev pub resumes : Main → Bool
resumes creating = false
resumes preparing = false
resumes leaving = false
resumes starting = false
resumes waiting = false
resumes joining = false
resumes deciding = false
resumes sleeping = true
resumes recreating = true
resumes returned = false

abbrev pub is_waiting : Main → Bool
is_waiting creating = false
is_waiting preparing = false
is_waiting leaving = false
is_waiting starting = false
is_waiting waiting = true
is_waiting joining = false
is_waiting deciding = false
is_waiting sleeping = false
is_waiting recreating = false
is_waiting returned = false

abbrev pub waits_for_routines : Main → Bool
waits_for_routines creating = false
waits_for_routines preparing = false
waits_for_routines leaving = true
waits_for_routines starting = false
waits_for_routines waiting = false
waits_for_routines joining = true
waits_for_routines deciding = false
waits_for_routines sleeping = false
waits_for_routines recreating = false
waits_for_routines returned = false

abbrev pub is_stopping : Routine → Bool
is_stopping absent = false
is_stopping running = false
is_stopping stopping = true

pub record Inv (w : Watchdog) : Type 0 where
  -- The flag is a stop signal that was taken, and no step forgets it.
  pub kept : w.handled ≡ w.should_stop
  pub alone : is_between w.main ≡ true → is_absent w.handler ≡ true
  pub unset : resumes w.main ≡ true → w.should_stop ≡ false
  pub few : is_waiting w.main ≡ false → w.live ≡ 0
  pub one : w.live ≤ 1
  pub told : waits_for_routines w.main ≡ true → w.cancelled ≡ true
  pub plain : is_stopping w.checker ≡ false

main_step-Inv : (m : Main) (a : Answers) (w : Watchdog) → w.main ≡ m → Inv w → Inv (main_step m a w)
unfolding main_step start_routines start_instance joined decide_restart
main_step-Inv creating a w e inv = ground arith
main_step-Inv preparing a w e inv = ground arith
main_step-Inv leaving a w e inv = ground arith
main_step-Inv starting a w e inv = ground arith
main_step-Inv waiting a w e inv = ground arith
main_step-Inv joining a w e inv = ground arith
main_step-Inv deciding a w e inv =
    elim (a.restartable)
      as (λ r. Inv (record w { main = decide_restart r a.updates_logger w.should_stop })) [
        | none ↦ ground arith
        | some restartable ↦ ground arith
      ]
main_step-Inv sleeping a w e inv = ground arith
main_step-Inv recreating a w e inv = ground arith
main_step-Inv returned a w e inv = inv

handler_step-Inv :
    (r : Routine) (sent : Bool) (w : Watchdog) → w.handler ≡ r → Inv w → Inv (handler_step r sent w)
unfolding handler_step take_signal
handler_step-Inv absent sent w e inv = inv
handler_step-Inv stopping sent w e inv = ground arith
handler_step-Inv running sent w e inv =
    elim (w.pending) as (λ p. Inv (elim p [ none ↦ w | some signal ↦ take_signal signal w ])) [
      | none ↦ inv
      | some signal ↦ elim (Bool-cases (is_stop signal)) [
        | inl stops ↦ ground arith
        | inr goes_on ↦ ground arith
      ]
    ]

leave-is_absent :
    (cancelled : Bool) (r : Routine) → is_absent r ≡ true → is_absent (leave cancelled r) ≡ true
unfolding leave
leave-is_absent cancelled absent h = refl
leave-is_absent cancelled running h = absurd (cc (h))
leave-is_absent cancelled stopping h = h

leave-is_stopping :
    (cancelled : Bool) (r : Routine)
    → is_stopping r ≡ false
    → is_stopping (leave cancelled r) ≡ false
unfolding leave
leave-is_stopping cancelled absent h = refl
leave-is_stopping cancelled running h = ground (arith, h)
leave-is_stopping cancelled stopping h = h

pub step-Inv : (event : Event) (w : Watchdog) → Inv w → Inv (step event w)
unfolding step leave
step-Inv (main_moves a) w inv = main_step-Inv w.main a w refl inv
step-Inv (handler_moves sent) w inv = handler_step-Inv w.handler sent w refl inv
step-Inv handler_leaves w inv = ground (arith, leave-is_absent w.cancelled w.handler)
step-Inv checker_leaves w inv = ground (arith, leave-is_stopping w.cancelled w.checker)
step-Inv check_fails w inv = ground (arith, leave-is_stopping true w.checker)
step-Inv instance_ends w inv = ground arith
step-Inv (signal_comes signal) w inv = ground arith

pub run-Inv : (events : List Event) (w : Watchdog) → Inv w → Inv (run events w)
unfolding run
run-Inv [] w inv = inv
run-Inv (event ∷ events) w inv = run-Inv events (step event w) (step-Inv event w inv)

pub new-Inv : (periodic : Bool) → Inv (new_watchdog periodic)
new-Inv periodic = ground arith
