-- ===== src/Watchdog.antt =====
-- cli/running/watchdog.go: the main loop, the signal handler and the integrity checker of a watchdog,
-- as the steps of three threads, and what the system does between them.
pub mod Inv
pub mod Stop
pub mod Ends
pub mod End
use tt.Prelude.{
  ℕ, ◌+◌, ◌-◌, Bool, true, false, ◌&&◌, ◌||◌, not, Option, none, some, List, [], ◌∷◌, if◌then◌else◌,
  nat_eq,
}

-- Where the main thread, `Start`, stands.
pub data Main : Type 0 where
  creating preparing leaving starting waiting joining deciding sleeping recreating returned : Main

-- A goroutine that a context stops: `stopping` is the handler inside `Stop`.
pub data Routine : Type 0 where
  absent running stopping : Routine

pub data Signal : Type 0 where
  sigint sigterm sigquit sighup other_signal : Signal

pub record Watchdog : Type 0 where
  pub main : Main
  pub should_stop : Bool
  pub handler : Routine
  pub checker : Routine
  -- The context of the two routines.
  pub cancelled : Bool
  -- The buffer of the channel of signals.
  pub pending : Option Signal
  -- `integrityCheckPeriod` is not 0.
  pub periodic : Bool
  -- The instances that run and those that were ever started.
  pub live : ℕ
  pub starts : ℕ
  -- A stop signal was taken from a channel, ever.
  pub handled : Bool

-- What the provider, the hook and the instance answer in a step of the main thread.
pub record Answers : Type 0 where
  pub creates : Bool
  pub prepares : Bool
  pub starts : Bool
  pub restartable : Option Bool
  pub updates_logger : Bool

abbrev pub new_watchdog : Bool → Watchdog
new_watchdog periodic = record {
  main = creating;
  should_stop = false;
  handler = absent;
  checker = absent;
  cancelled = false;
  pending = none;
  periodic = periodic;
  live = 0;
  starts = 0;
  handled = false;
}

-- `startSignalHandling` makes a new channel, `startIntegrityChecks` a ticker.
unfoldable pub start_routines : Main → Watchdog → Watchdog
start_routines next w = record w {
  main = next;
  handler = running;
  checker = if w.periodic then running else absent;
  cancelled = false;
  pending = none;
}

abbrev pub is_absent : Routine → Bool
is_absent absent = true
is_absent running = false
is_absent stopping = false

unfoldable pub joined : Watchdog → Bool
joined w = is_absent w.handler && is_absent w.checker

-- The decision of the loop after the instance ended.
unfoldable pub decide_restart : Option Bool → Bool → Bool → Main
decide_restart none updates_logger should_stop = returned
decide_restart (some restartable) updates_logger should_stop =
    if should_stop || not restartable
    then returned
    else if updates_logger
    then sleeping
    else returned

unfoldable pub start_instance : Bool → Watchdog → Watchdog
start_instance works w =
    if w.should_stop
    then record w { main = returned }
    else if works
    then record w { main = waiting; live = w.live + 1; starts = w.starts + 1 }
    else record w { main = returned }

-- A step of `Start`; a thread that has to wait stays as it is.
unfoldable pub main_step : Main → Answers → Watchdog → Watchdog
main_step creating a w =
    if a.creates then start_routines preparing w else record w { main = returned }
main_step preparing a w =
    if a.prepares
    then record w { main = starting }
    else record w { main = leaving; cancelled = true }
main_step leaving a w = if joined w then record w { main = returned } else w
main_step starting a w = start_instance a.starts w
main_step waiting a w = if nat_eq w.live 0 then record w { main = joining; cancelled = true } else w
main_step joining a w = if joined w then record w { main = deciding } else w
main_step deciding a w = record w {
  main = decide_restart a.restartable a.updates_logger w.should_stop;
}
main_step sleeping a w = record w { main = recreating; should_stop = false }
main_step recreating a w =
    if a.creates then start_routines starting w else record w { main = returned }
main_step returned a w = w

abbrev pub is_stop : Signal → Bool
is_stop sigint = true
is_stop sigterm = true
is_stop sigquit = true
is_stop sighup = false
is_stop other_signal = false

-- The handler takes a signal from its channel. Other signals go to the instance.
unfoldable pub take_signal : Signal → Watchdog → Watchdog
take_signal signal w =
    if is_stop signal
    then record w { pending = none; should_stop = true; handled = true; handler = stopping }
    else record w { pending = none }

-- A step of the handler: it takes a signal, or it is inside `Stop`, which ends the instance if the
-- signal can be sent to it.
unfoldable pub handler_step : Routine → Bool → Watchdog → Watchdog
handler_step absent sent w = w
handler_step running sent w = elim w.pending [ none ↦ w | some signal ↦ take_signal signal w ]
handler_step stopping sent w =
    if nat_eq w.live 0 || not sent
    then record w { handler = running }
    else record w { handler = running; live = w.live - 1 }

-- A routine that waits sees that its context is done.
unfoldable pub leave : Bool → Routine → Routine
leave cancelled absent = absent
leave cancelled running = if cancelled then absent else running
leave cancelled stopping = stopping

unfoldable pub deliver : Signal → Option Signal → Option Signal
deliver signal none = some signal
deliver signal (some first) = some first

pub data Event : Type 0 where
  main_moves : Answers → Event
  handler_moves : Bool → Event
  handler_leaves checker_leaves check_fails instance_ends : Event
  signal_comes : Signal → Event

unfoldable pub step : Event → Watchdog → Watchdog
step (main_moves a) w = main_step w.main a w
step (handler_moves sent) w = handler_step w.handler sent w
step handler_leaves w = record w { handler = leave w.cancelled w.handler }
step checker_leaves w = record w { checker = leave w.cancelled w.checker }
step check_fails w = record w { checker = leave true w.checker }
step instance_ends w = record w { live = w.live - 1 }
step (signal_comes signal) w = record w { pending = deliver signal w.pending }

unfoldable pub run : List Event → Watchdog → Watchdog
run [] w = w
run (event ∷ events) w = run events (step event w)
