-- ===== src/Watchdog/Ends.antt =====
-- The signal handler of cli/running/watchdog.go ends the instance: what holds after a stop signal, if the
-- signal of each `Stop` can be sent.
use tt.Prelude.{◌≡◌, refl, Bool, true, none, some, List, [], ◌∷◌, arith, ◌⊎◌, inl, inr, Bool-cases}
use tt.Watchdog.{
  Main, creating, preparing, leaving, starting, waiting, joining, deciding, sleeping, recreating,
  returned, Routine, absent, running, stopping, Watchdog, Answers, is_stop, joined, main_step,
  handler_step, start_routines, start_instance, take_signal, leave, Event, main_moves,
  handler_moves, handler_leaves, checker_leaves, check_fails, instance_ends, signal_comes, step,
  run,
}
use tt.Watchdog.Inv.{Inv, step-Inv, is_stopping}

abbrev pub IsSent : Event → Type 0
IsSent (handler_moves sent) = sent ≡ true
IsSent (main_moves a) = Unit {0}
IsSent handler_leaves = Unit {0}
IsSent checker_leaves = Unit {0}
IsSent check_fails = Unit {0}
IsSent instance_ends = Unit {0}
IsSent (signal_comes signal) = Unit {0}

-- The signal of every `Stop` can be sent.
abbrev pub AreSent : List Event → Type 0
AreSent [] = Unit {0}
AreSent (event ∷ events) = IsSent event × AreSent events

-- After a stop signal the handler is inside `Stop` or no instance runs.
abbrev pub Ends : Watchdog → Type 0
Ends w = w.handled ≡ true → (is_stopping w.handler ≡ true) ⊎ (w.live ≡ 0)

main_step-Ends :
    (m : Main) (a : Answers) (w : Watchdog) → w.main ≡ m → Inv w → Ends w → Ends (main_step m a w)
unfolding main_step start_routines start_instance joined
main_step-Ends creating a w e inv ends = λ handled. ground (arith, ends, handled)
main_step-Ends preparing a w e inv ends = λ handled. ground (arith, ends, handled)
main_step-Ends leaving a w e inv ends = λ handled. ground (arith, ends, handled)
main_step-Ends starting a w e inv ends = λ handled. ground (arith, ends, handled)
main_step-Ends waiting a w e inv ends = λ handled. ground (arith, ends, handled)
main_step-Ends joining a w e inv ends = λ handled. ground (arith, ends, handled)
main_step-Ends deciding a w e inv ends = λ handled. ground (arith, ends, handled)
main_step-Ends sleeping a w e inv ends = λ handled. ground (arith, ends, handled)
main_step-Ends recreating a w e inv ends = λ handled. ground (arith, ends, handled)
main_step-Ends returned a w e inv ends = ends

handler_step-Ends :
    (r : Routine) (w : Watchdog) → w.handler ≡ r → Inv w → Ends w → Ends (handler_step r true w)
unfolding handler_step take_signal
handler_step-Ends absent w e inv ends = ends
handler_step-Ends stopping w e inv ends = λ handled. ground (arith, inv.one)
handler_step-Ends running w e inv ends =
    elim (w.pending) as (λ p. Ends (elim p [ none ↦ w | some signal ↦ take_signal signal w ])) [
      | none ↦ ends
      | some signal ↦ elim (Bool-cases (is_stop signal)) [
        | inl stops ↦ λ handled. ground (arith, stops)
        | inr goes_on ↦ λ handled. ground (arith, goes_on, ends, handled)
      ]
    ]

leave-is_stopping :
    (cancelled : Bool) (r : Routine) → is_stopping (leave cancelled r) ≡ is_stopping r
unfolding leave
leave-is_stopping cancelled absent = refl
leave-is_stopping cancelled running = ground arith
leave-is_stopping cancelled stopping = refl

step-Ends : (event : Event) (w : Watchdog) → IsSent event → Inv w → Ends w → Ends (step event w)
unfolding step
step-Ends (main_moves a) w sent inv ends = main_step-Ends w.main a w refl inv ends
step-Ends (handler_moves sent_it) w sent inv ends =
    rw sent (handler_step-Ends w.handler w refl inv ends)
step-Ends handler_leaves w sent inv ends =
    λ handled. rw (leave-is_stopping w.cancelled w.handler) (ends handled)
step-Ends checker_leaves w sent inv ends = ends
step-Ends check_fails w sent inv ends = ends
step-Ends instance_ends w sent inv ends = λ handled. ground (arith, ends handled)
step-Ends (signal_comes signal) w sent inv ends = ends

pub run-Ends :
    (events : List Event) (w : Watchdog) → AreSent events → Inv w → Ends w → Ends (run events w)
unfolding run
run-Ends [] w sent inv ends = ends
run-Ends (event ∷ events) w sent inv ends =
    run-Ends events (step event w) sent.1 (step-Inv event w inv) (step-Ends event w sent.0 inv ends)
