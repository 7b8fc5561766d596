-- ===== src/Start/Shutdown.antt =====
-- How the loop ends.
use aog_task_controller.Prelude.{
  ◌≡◌, refl, ap, subst, Bool, true, false, not, ◌||◌, List, [], ◌∷◌, ◌++◌, Option, none, some,
  if◌then◌else◌,
}
use aog_task_controller.Start.{
  Action, initializes, updates, creates_application, installs_crash_handlers, sets_up_file_logging,
  logs_crash, stops_application, flushes_log, Ending, returns, throws, Round, ExitCode, success,
  failure, shut_down, loop, after_round, exit_code, run_application_loop,
}

abbrev is_true : Ending → Bool
is_true (returns b) = b
is_true throws = false

-- A round ends the loop: the signal has come, or `update` returns false or throws.
abbrev pub any_end : List Round → Bool
any_end [] = false
any_end (round ∷ rest) = not round.running || not (is_true round.update) || any_end rest

abbrev is_stop : Action → Bool
is_stop stops_application = true
is_stop installs_crash_handlers = false
is_stop sets_up_file_logging = false
is_stop creates_application = false
is_stop initializes = false
is_stop updates = false
is_stop logs_crash = false
is_stop flushes_log = false

abbrev any_stop : List Action → Bool
any_stop [] = false
any_stop (action ∷ rest) = is_stop action || any_stop rest

-- Once the loop has ended, the application has been stopped and then the log flushed, as the last
-- actions, and the application has not been stopped before; until then it has not been stopped.
abbrev pub IsShutDown : Bool → List Action → Type 0
IsShutDown true actions =
    (before : List Action) × (actions ≡ before ++ shut_down) × (any_stop before ≡ false)
IsShutDown false actions = any_stop actions ≡ false

after-IsShutDown :
    (action : Action)
    → is_stop action ≡ false
    → (ended : Bool) (actions : List Action) → IsShutDown ended actions
    → IsShutDown ended (action ∷ actions)
after-IsShutDown action other true actions (before, e, none_before) =
    (action ∷ before, ap (λ l. action ∷ l) e, rw other none_before)
after-IsShutDown action other false actions h = rw other h

end-IsShutDown : IsShutDown true shut_down
end-IsShutDown = ([], refl, refl)

round-IsShutDown :
    (running : Bool) (update : Ending) (actions : List Action) (ended any : Bool)
    → ended ≡ any
    → IsShutDown ended actions
    → let (actions', ended') = after_round running update (actions, ended) in
      (ended' ≡ (not running || not (is_true update) || any)) × IsShutDown ended' actions'
round-IsShutDown false update actions ended any e h = (refl, end-IsShutDown)
round-IsShutDown true (returns true) actions ended any e h =
    (e, after-IsShutDown updates refl ended actions h)
round-IsShutDown true (returns false) actions ended any e h =
    (refl, after-IsShutDown updates refl true shut_down end-IsShutDown)
round-IsShutDown true throws actions ended any e h = (
  refl,
  after-IsShutDown updates refl true (logs_crash ∷ shut_down)
      (after-IsShutDown logs_crash refl true shut_down end-IsShutDown),
)

loop-IsShutDown :
    (rounds : List Round)
    → let (actions, ended) = loop rounds in (ended ≡ any_end rounds) × IsShutDown ended actions
unfolding loop
loop-IsShutDown [] = (refl, refl)
loop-IsShutDown (round ∷ rest) =
    let (actions, ended) = loop rest in
    let (e, h) = loop-IsShutDown rest in
    round-IsShutDown round.running round.update actions ended (any_end rest) e h

started :
    (ended : Bool) (actions : List Action)
    → IsShutDown ended actions
    → IsShutDown ended (creates_application ∷ initializes ∷ actions)
started ended actions h =
    after-IsShutDown creates_application refl ended (initializes ∷ actions)
      (after-IsShutDown initializes refl ended actions h)

-- The program has ended, or a round ends it.
abbrev pub any_exit : Ending → List Round → Bool
any_exit initialized rounds = not (is_true initialized) || any_end rounds

-- -1 if `initialize` returns false, 0 however else the program ends.
abbrev pub code_of : Ending → List Round → Option ExitCode
code_of (returns false) rounds = some failure
code_of (returns true) rounds = if any_end rounds then some success else none
code_of throws rounds = some success

-- However `initialize` ends and whatever the rounds bring, a signal, a failed update or an exception:
-- the loop has ended exactly if one of these has come, its exit code tells a failed `initialize` from
-- the rest, and the application is then stopped exactly once, before the log is flushed as the last
-- action.
pub run_application_loop-IsShutDown :
    (initialized : Ending) (rounds : List Round)
    → let (actions, code) = run_application_loop initialized rounds in
      (code ≡ code_of initialized rounds) × IsShutDown (any_exit initialized rounds) actions
unfolding run_application_loop
run_application_loop-IsShutDown (returns true) rounds =
    let (e, h) = loop-IsShutDown rounds in
    let (actions, ended) = loop rounds in
    (
      ap exit_code e,
      subst (λ b. IsShutDown b (creates_application ∷ initializes ∷ actions)) e
          (started ended actions h),
    )
run_application_loop-IsShutDown (returns false) rounds =
    (refl, started true shut_down end-IsShutDown)
run_application_loop-IsShutDown throws rounds = (
  refl,
  started true (logs_crash ∷ shut_down)
      (after-IsShutDown logs_crash refl true shut_down end-IsShutDown),
)
