-- ===== src/Tests/WatchdogTests.antt =====
-- The theorems about cli/running/watchdog.go at short runs.
use tt.Prelude.{suc, ◌≡◌, ◌⊎◌, refl, true, false, none, some, List, [], ◌∷◌, ◌++◌}
use tt.Watchdog.{
  Answers, Event, main_moves, handler_moves, instance_ends, handler_leaves, signal_comes, sigterm,
  sigquit, waiting, returned, new_watchdog, run, step, main_step, handler_step, start_routines,
  start_instance, take_signal, leave, joined, decide_restart, deliver,
}
use tt.Watchdog.Stop.{no_start_after_stop, one_instance, lost_signal}
use tt.Watchdog.End.{stop-returned, round}

abbrev yes_to_all : Answers
yes_to_all = record {
  creates = true;
  prepares = true;
  starts = true;
  restartable = some true;
  updates_logger = true;
}

abbrev go : Event
go = main_moves yes_to_all

-- The instance runs and a stop signal is taken.
abbrev stop_taken : List Event
stop_taken = go ∷ go ∷ go ∷ signal_comes sigterm ∷ handler_moves true ∷ []

-- The instance has ended and its watchdog sleeps.
abbrev asleep : List Event
asleep = go ∷ go ∷ go ∷ instance_ends ∷ go ∷ handler_leaves ∷ go ∷ go ∷ []

no_start_after_stop_example :
    (run
      (stop_taken ++ (handler_moves true ∷ go ∷ handler_leaves ∷ go ∷ go ∷ go ∷ []))
      (new_watchdog false)).starts
    ≡ (run stop_taken (new_watchdog false)).starts
unfolding run step main_step handler_step start_routines start_instance take_signal deliver
no_start_after_stop_example =
    no_start_after_stop false stop_taken
      (handler_moves true ∷ go ∷ handler_leaves ∷ go ∷ go ∷ go ∷ []) refl

one_instance_example :
    ((run asleep (new_watchdog false)).live ≡ 0)
    ⊎ (((run asleep (new_watchdog false)).live ≡ 1)
        × ((run asleep (new_watchdog false)).main ≡ waiting))
one_instance_example = one_instance false asleep

lost_signal_example :
    ((run (asleep ++ signal_comes sigquit ∷ go ∷ go ∷ go ∷ []) (new_watchdog false)).starts
      ≡ suc ((run asleep (new_watchdog false)).starts))
    × ((run (asleep ++ signal_comes sigquit ∷ go ∷ go ∷ go ∷ []) (new_watchdog false)).pending
        ≡ none)
    × ((run (asleep ++ signal_comes sigquit ∷ go ∷ go ∷ go ∷ []) (new_watchdog false)).should_stop
        ≡ false)
unfolding run step main_step start_routines start_instance leave joined decide_restart
lost_signal_example = lost_signal false asleep sigquit yes_to_all refl refl refl

stop-returned_example :
    (run
      (stop_taken ++ (round yes_to_all ++ (round yes_to_all ++ round yes_to_all)))
      (new_watchdog false)).main
    ≡ returned
unfolding run step main_step handler_step start_routines start_instance take_signal deliver
stop-returned_example =
    stop-returned false stop_taken yes_to_all yes_to_all yes_to_all
      (tt, (tt, (tt, (tt, (refl, tt))))) refl
