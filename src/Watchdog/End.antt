-- ===== src/Watchdog/End.antt =====
-- How the watchdog of cli/running/watchdog.go comes to its end after a stop signal.
use tt.Prelude.{
  inr, ℕ, ◌-◌, ◌≤◌, ◌≡◌, refl, sym, subst, ◌∙◌, Bool, true, false, Option, none, some, List, [],
  ◌∷◌, ◌++◌, arith,
}
use tt.Watchdog.{
  Main, creating, preparing, leaving, starting, waiting, joining, deciding, sleeping, recreating,
  returned, Routine, absent, running, stopping, Signal, Watchdog, Answers, new_watchdog, is_absent,
  joined, main_step, handler_step, start_routines, start_instance, decide_restart, take_signal,
  leave, Event, main_moves, handler_moves, handler_leaves, checker_leaves, step, run,
}
use tt.Watchdog.Inv.{Inv, run-Inv, new-Inv, waits_for_routines, is_stopping}
use tt.Watchdog.Ends.{AreSent, Ends, run-Ends}
use tt.Watchdog.Stop.{run-append, run-Stopped}

-- The handler takes what is pending and finishes `Stop`, whose signal can be sent, the routines see that
-- their context is done, and the main thread moves.
abbrev pub calm : List Event
calm =
    handler_moves true
    ∷ handler_moves true
    ∷ handler_moves true
    ∷ handler_leaves
    ∷ checker_leaves
    ∷ []

abbrev pub round : Answers → List Event
round a = calm ++ main_moves a ∷ []

-- After the three moves the handler is outside `Stop`.
handler_settles :
    (r : Routine) (p : Option Signal) (w : Watchdog)
    → w.handler ≡ r
    → w.pending ≡ p
    → is_stopping
        (run (handler_moves true ∷ handler_moves true ∷ handler_moves true ∷ []) w).handler
      ≡ false
unfolding run step handler_step take_signal
handler_settles absent p w h k = ground arith
handler_settles running none w h k = ground arith
handler_settles running (some signal) w h k = ground arith
handler_settles stopping none w h k = ground arith
handler_settles stopping (some signal) w h k = ground arith

abbrev Same : Watchdog → Watchdog → Type 0
Same w next = (next.main ≡ w.main) × (next.cancelled ≡ w.cancelled)

handler_step-Same : (r : Routine) (w : Watchdog) → Same w (handler_step r true w)
unfolding handler_step take_signal
handler_step-Same absent w = (refl, refl)
handler_step-Same stopping w = ground arith
handler_step-Same running w =
    elim (w.pending) as (λ p. Same w (elim p [ none ↦ w | some signal ↦ take_signal signal w ])) [
      | none ↦ (refl, refl)
      | some signal ↦ ground arith
    ]

moves-Same : (w : Watchdog) → Same w (step (handler_moves true) w)
unfolding step
moves-Same w = handler_step-Same w.handler w

abbrev Calm : Watchdog → Watchdog → Type 0
Calm w next =
    (next.main ≡ w.main) × (next.live ≡ 0) × (waits_for_routines w.main ≡ true → joined next ≡ true)

leave_done : (r : Routine) → is_stopping r ≡ false → is_absent (leave true r) ≡ true
unfolding leave
leave_done absent q = refl
leave_done running q = refl
leave_done stopping q = absurd (cc (q))

leaves-Calm :
    (w : Watchdog)
    → Inv w
    → Ends w
    → w.handled ≡ true
    → is_stopping w.handler ≡ false
    → Calm w (run (handler_leaves ∷ checker_leaves ∷ []) w)
unfolding run step joined
leaves-Calm w inv ends handled h = (
  refl,
  ground (arith, ends handled, h),
  λ waits. ground (arith, leave_done w.handler h, leave_done w.checker inv.plain, inv.told waits),
)

abbrev settling : List Event
settling = handler_moves true ∷ handler_moves true ∷ handler_moves true ∷ []

calm-Calm : (w : Watchdog) → Inv w → Ends w → w.handled ≡ true → Calm w (run calm w)
unfolding run
calm-Calm w inv ends handled =
    let w3 = run settling w in
    let (same1, _) = moves-Same w in
    let (same2, _) = moves-Same (step (handler_moves true) w) in
    let (same3, _) = moves-Same (step (handler_moves true) (step (handler_moves true) w)) in
    let same : w3.main ≡ w.main = same3 ∙ (same2 ∙ same1) in
    let (main, none_live, done) =
      leaves-Calm w3 (run-Inv settling w inv)
        (run-Ends settling w (refl, (refl, (refl, tt))) inv ends)
        (run-Stopped settling w inv handled).1 (handler_settles w.handler w.pending w refl refl) in
    (main ∙ same, none_live, λ waits. done (rw same waits))

-- How far the main thread is from its end.
abbrev rank : Main → ℕ
rank creating = 3
rank preparing = 2
rank leaving = 1
rank starting = 1
rank waiting = 3
rank joining = 2
rank deciding = 1
rank sleeping = 0
rank recreating = 0
rank returned = 0

decided : (r : Option Bool) (updates : Bool) → rank (decide_restart r updates true) ≤ 0
unfolding decide_restart
decided none updates = ground arith
decided (some restartable) updates = ground arith

main_step-rank :
    (m : Main) (a : Answers) (w : Watchdog)
    → w.main ≡ m
    → Inv w
    → w.handled ≡ true
    → w.live ≡ 0
    → (waits_for_routines m ≡ true → joined w ≡ true)
    → rank (main_step m a w).main ≤ rank m - 1
unfolding main_step start_routines start_instance
main_step-rank creating a w e inv h none_live done = ground arith
main_step-rank preparing a w e inv h none_live done = ground arith
main_step-rank leaving a w e inv h none_live done = ground (arith, done refl)
main_step-rank starting a w e inv h none_live done = ground arith
main_step-rank waiting a w e inv h none_live done = ground arith
main_step-rank joining a w e inv h none_live done = ground (arith, done refl)
main_step-rank deciding a w e inv h none_live done =
    rw (sym inv.kept ∙ h) (decided a.restartable a.updates_logger)
main_step-rank sleeping a w e inv h none_live done = absurd (ground arith)
main_step-rank recreating a w e inv h none_live done = absurd (ground arith)
main_step-rank returned a w e inv h none_live done = ground arith

round-rank :
    (a : Answers) (w : Watchdog)
    → Inv w
    → Ends w
    → w.handled ≡ true
    → rank (run (round a) w).main ≤ rank w.main - 1
unfolding step run
round-rank a w inv ends h =
    let calmed = run calm w in
    let inv2 = run-Inv calm w inv in
    let h2 = (run-Stopped calm w inv h).1 in
    let (same, none_live, done) = calm-Calm w inv ends h in
    subst (λ (m : Main). rank (main_step calmed.main a calmed).main ≤ rank m - 1) same
      (main_step-rank calmed.main a calmed refl inv2 h2 none_live
        (λ waits. done (rw (sym same) waits)))

rank_zero :
    (m : Main) (w : Watchdog) → w.main ≡ m → Inv w → w.handled ≡ true → rank m ≤ 0 → m ≡ returned
rank_zero returned w e inv h small = refl
rank_zero sleeping w e inv h small = absurd (ground arith)
rank_zero recreating w e inv h small = absurd (ground arith)
rank_zero creating w e inv h small = absurd (omega arith)
rank_zero preparing w e inv h small = absurd (omega arith)
rank_zero leaving w e inv h small = absurd (omega arith)
rank_zero starting w e inv h small = absurd (omega arith)
rank_zero waiting w e inv h small = absurd (omega arith)
rank_zero joining w e inv h small = absurd (omega arith)
rank_zero deciding w e inv h small = absurd (omega arith)

rank_most : (m : Main) → rank m ≤ 3
rank_most creating = omega arith
rank_most preparing = omega arith
rank_most leaving = omega arith
rank_most starting = omega arith
rank_most waiting = omega arith
rank_most joining = omega arith
rank_most deciding = omega arith
rank_most sleeping = omega arith
rank_most recreating = omega arith
rank_most returned = omega arith

three_rounds :
    (a b c : Answers) (w : Watchdog)
    → Inv w
    → Ends w
    → w.handled ≡ true
    → (run (round a ++ (round b ++ round c)) w).main ≡ returned
three_rounds a b c w inv ends h =
    let w1 = run (round a) w in
    let w2 = run (round b) w1 in
    let w3 = run (round c) w2 in
    let inv1 = run-Inv (round a) w inv in
    let inv2 = run-Inv (round b) w1 inv1 in
    let ends1 = run-Ends (round a) w (refl, (refl, (refl, (tt, (tt, (tt, tt)))))) inv ends in
    let ends2 = run-Ends (round b) w1 (refl, (refl, (refl, (tt, (tt, (tt, tt)))))) inv1 ends1 in
    let h1 = (run-Stopped (round a) w inv h).1 in
    let h2 = (run-Stopped (round b) w1 inv1 h1).1 in
    let small : rank w3.main ≤ 0 = omega (
      arith,
      rank_most w.main,
      round-rank a w inv ends h,
      round-rank b w1 inv1 ends1 h1,
      round-rank c w2 inv2 ends2 h2,
    ) in
    let end =
      rank_zero w3.main w3 refl (run-Inv (round c) w2 inv2) (run-Stopped (round c) w2 inv2 h2).1
        small in
    rw (run-append (round a) (round b ++ round c) w, run-append (round b) (round c) w1) end

-- In every interleaving in which the signal of each `Stop` of the handler can be sent, once the handler
-- has taken a stop signal, `Start` returns after at most three rounds of the threads, whatever the
-- provider and the hook answer in them: in a round the handler moves three times, the routines see that
-- their context is done and the main thread moves. No instance has to end by itself: `Stop` ends it.
pub stop-returned :
    (periodic : Bool) (events : List Event) (a b c : Answers)
    → AreSent events
    → (run events (new_watchdog periodic)).handled ≡ true
    → (run (events ++ (round a ++ (round b ++ round c))) (new_watchdog periodic)).main ≡ returned
stop-returned periodic events a b c sent h =
    let start = new_watchdog periodic in
    rw (run-append events (round a ++ (round b ++ round c)) start) (
      three_rounds a b c (run events start) (run-Inv events _ (new-Inv periodic))
        (run-Ends events start sent (new-Inv periodic) (λ handled. inr refl)) h)
