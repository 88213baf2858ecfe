-- ===== src/Watchdog/Stop.antt =====
-- What a stop signal does to the watchdog of cli/running/watchdog.go, over all interleavings.
use tt.Prelude.{
  ◌⊎◌, ℕ, suc, ◌≤◌, ◌≡◌, refl, ◌∙◌, Bool, true, false, none, some, List, [], ◌∷◌, ◌++◌, nat_eq,
  nat_eq_iff, arith, Bool-cases, inl, inr,
}
use tt.Watchdog.{
  Main, creating, preparing, leaving, starting, waiting, joining, deciding, sleeping, recreating,
  returned, Routine, absent, running, stopping, Signal, Watchdog, Answers, new_watchdog, joined,
  main_step, handler_step, start_routines, start_instance, take_signal, Event, main_moves,
  handler_moves, handler_leaves, checker_leaves, check_fails, instance_ends, signal_comes, step,
  run,
}
use tt.Watchdog.Inv.{Inv, step-Inv, run-Inv, new-Inv, is_waiting}

-- No step starts an instance once a stop was taken.
abbrev pub Stopped : Watchdog → Watchdog → Type 0
Stopped w next = (next.starts ≡ w.starts) × (next.handled ≡ true)

main_step-Stopped :
    (m : Main) (a : Answers) (w : Watchdog)
    → w.main ≡ m
    → Inv w
    → w.handled ≡ true
    → Stopped w (main_step m a w)
unfolding main_step start_routines start_instance joined
main_step-Stopped creating a w e inv h = ground arith
main_step-Stopped preparing a w e inv h = ground arith
main_step-Stopped leaving a w e inv h = ground arith
main_step-Stopped starting a w e inv h = ground arith
main_step-Stopped waiting a w e inv h = ground arith
main_step-Stopped joining a w e inv h = ground arith
main_step-Stopped deciding a w e inv h = ground arith
main_step-Stopped sleeping a w e inv h = ground arith
main_step-Stopped recreating a w e inv h = ground arith
main_step-Stopped returned a w e inv h = ground arith

handler_step-Stopped :
    (r : Routine) (sent : Bool) (w : Watchdog)
    → w.handled ≡ true
    → Stopped w (handler_step r sent w)
unfolding handler_step take_signal
handler_step-Stopped absent sent w h = ground arith
handler_step-Stopped stopping sent w h = ground arith
handler_step-Stopped running sent w h =
    elim (w.pending)
      as (λ p. Stopped w (elim p [ none ↦ w | some signal ↦ take_signal signal w ])) [
        | none ↦ ground arith
        | some signal ↦ ground arith
      ]

step-Stopped : (event : Event) (w : Watchdog) → Inv w → w.handled ≡ true → Stopped w (step event w)
unfolding step
step-Stopped (main_moves a) w inv h = main_step-Stopped w.main a w refl inv h
step-Stopped (handler_moves sent) w inv h = handler_step-Stopped w.handler sent w h
step-Stopped handler_leaves w inv h = ground arith
step-Stopped checker_leaves w inv h = ground arith
step-Stopped check_fails w inv h = ground arith
step-Stopped instance_ends w inv h = ground arith
step-Stopped (signal_comes signal) w inv h = ground arith

pub run-Stopped :
    (events : List Event) (w : Watchdog) → Inv w → w.handled ≡ true → Stopped w (run events w)
unfolding run
run-Stopped [] w inv h = (refl, h)
run-Stopped (event ∷ events) w inv h =
    let (same, still) = step-Stopped event w inv h in
    let (same2, still2) = run-Stopped events (step event w) (step-Inv event w inv) still in
    (same2 ∙ same, still2)

pub run-append :
    (events more : List Event) (w : Watchdog) → run (events ++ more) w ≡ run more (run events w)
unfolding run
run-append [] more w = refl
run-append (event ∷ events) more w = run-append events more (step event w)

-- In every interleaving, once the handler has taken a stop signal from its channel no further instance is started.
pub no_start_after_stop :
    (periodic : Bool) (events more : List Event)
    → (run events (new_watchdog periodic)).handled ≡ true
    → (run (events ++ more) (new_watchdog periodic)).starts
      ≡ (run events (new_watchdog periodic)).starts
no_start_after_stop periodic events more h =
    rw (run-append events more (new_watchdog periodic))
      (run-Stopped more _ (run-Inv events _ (new-Inv periodic)) h).0

few_one :
    (m : Main) (n : ℕ)
    → (is_waiting m ≡ false → n ≡ 0)
    → n ≤ 1
    → (n ≡ 0) ⊎ ((n ≡ 1) × (m ≡ waiting))
few_one waiting n few one = elim (Bool-cases (nat_eq n 0)) [
  | inl same ↦ inl ((nat_eq_iff n 0).0 same)
  | inr other ↦ inr (ground (arith, other, one), refl)
]
few_one creating n few one = inl (few refl)
few_one preparing n few one = inl (few refl)
few_one leaving n few one = inl (few refl)
few_one starting n few one = inl (few refl)
few_one joining n few one = inl (few refl)
few_one deciding n few one = inl (few refl)
few_one sleeping n few one = inl (few refl)
few_one recreating n few one = inl (few refl)
few_one returned n few one = inl (few refl)

-- In every interleaving at most one instance runs, and none while the main thread is not waiting for one.
pub one_instance :
    (periodic : Bool) (events : List Event)
    → ((run events (new_watchdog periodic)).live ≡ 0)
      ⊎ (((run events (new_watchdog periodic)).live ≡ 1)
          × ((run events (new_watchdog periodic)).main ≡ waiting))
one_instance periodic events =
    let inv = run-Inv events _ (new-Inv periodic) in few_one _ _ inv.few inv.one

restart_loses :
    (w : Watchdog) (signal : Signal) (a : Answers)
    → w.main ≡ sleeping
    → a.creates ≡ true
    → a.starts ≡ true
    → ((run (signal_comes signal ∷ main_moves a ∷ main_moves a ∷ main_moves a ∷ []) w).starts
        ≡ suc (w.starts))
      × ((run (signal_comes signal ∷ main_moves a ∷ main_moves a ∷ main_moves a ∷ []) w).pending
          ≡ none)
      × ((run (signal_comes signal ∷ main_moves a ∷ main_moves a ∷ main_moves a ∷ []) w).should_stop
          ≡ false)
unfolding run step main_step start_routines start_instance
restart_loses w signal a asleep creates works = ground arith

-- A signal that comes while the main thread sleeps before a restart is lost, a stop signal too: where the
-- instance is then created and started, one more instance is started, no signal is pending and the stop flag is not set.
pub lost_signal :
    (periodic : Bool) (events : List Event) (signal : Signal) (a : Answers)
    → (run events (new_watchdog periodic)).main ≡ sleeping
    → a.creates ≡ true
    → a.starts ≡ true
    → ((run
          (events ++ signal_comes signal ∷ main_moves a ∷ main_moves a ∷ main_moves a ∷ [])
          (new_watchdog periodic)).starts
        ≡ suc ((run events (new_watchdog periodic)).starts))
      × ((run
            (events ++ signal_comes signal ∷ main_moves a ∷ main_moves a ∷ main_moves a ∷ [])
            (new_watchdog periodic)).pending
          ≡ none)
      × ((run
            (events ++ signal_comes signal ∷ main_moves a ∷ main_moves a ∷ main_moves a ∷ [])
            (new_watchdog periodic)).should_stop
          ≡ false)
lost_signal periodic events signal a asleep creates works =
    rw
      (run-append events (signal_comes signal ∷ main_moves a ∷ main_moves a ∷ main_moves a ∷ [])
        (new_watchdog periodic))
      (restart_loses _ signal a asleep creates works)
