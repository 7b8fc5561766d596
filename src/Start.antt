-- ===== src/Start.antt =====
-- src/main.cpp: the arguments of the command line, the choice of the CAN driver, and the loop that
-- runs the application. The build is one without `_WIN32`; the calls of the application are parameters.
pub mod Given
pub mod Options
pub mod Shutdown
use aog_task_controller.Prelude.{
  ℕ, zero, suc, ◌+◌, Bool, true, false, not, ◌&&◌, ◌||◌, List, [], ◌∷◌, ◌++◌, Option, none, some,
  ltb, leb, ◌==◌, if◌then◌else◌,
}
use aog_task_controller.Prelude.Text.{codes, same_text}

pub data CanAdapter : Type 0 where
  no_adapter adapter_pcan_usb adapter_innomaker_usb2can : CanAdapter
  adapter_rusoku_toucan adapter_sys_tec_usb2can adapter_socketcan : CanAdapter

-- The levels of the logger of the CAN stack.
pub data LoggingLevel : Type 0 where
  debug info warning error critical : LoggingLevel

-- `ArgumentProcessor`, and the level that the logger of the CAN stack has been given, if any.
pub record Arguments : Type 0 where
  pub can_adapter : CanAdapter
  pub can_channel : List ℕ
  pub file_logging : Bool
  pub log_level : Option LoggingLevel

abbrev pub no_arguments : Arguments
no_arguments = record {
  can_adapter = no_adapter;
  can_channel = [];
  file_logging = false;
  log_level = none;
}

-- `std::tolower` in the C locale.
abbrev to_lower : ℕ → ℕ
to_lower c = if leb b'A' c && leb c b'Z' then c + 32 else c

unfoldable pub lower : List ℕ → List ℕ
lower [] = []
lower (c ∷ rest) = to_lower c ∷ lower rest

-- `--help` or `--version`, which end the process.
unfoldable pub is_exit : List ℕ → Bool
is_exit option = same_text option (codes "--help") || same_text option (codes "--version")

-- The other options.
unfoldable pub parse_option : List ℕ → Arguments → Arguments
parse_option option a =
    if same_text option (codes "--log2file") then record a { file_logging = true } else a

-- The key before the first '=' and the value after it.
unfoldable pub split_parameter : List ℕ → Option (List ℕ × List ℕ)
split_parameter [] = none
split_parameter (c ∷ rest) =
    let split = split_parameter rest in
    if c == b'='
    then some ([], rest)
    else elim split [ none ↦ none | some (key, value) ↦ some (c ∷ key, value) ]

unfoldable pub adapter_of : List ℕ → Option CanAdapter
adapter_of value =
    if same_text value (codes "peak-pcan")
    then some adapter_pcan_usb
    else if same_text value (codes "innomaker-usb2can")
    then some adapter_innomaker_usb2can
    else if same_text value (codes "rusoku-toucan")
    then some adapter_rusoku_toucan
    else if same_text value (codes "sys-tec-usb2can")
    then some adapter_sys_tec_usb2can
    else if same_text value (codes "socketcan")
    then some adapter_socketcan
    else none

unfoldable pub level_of : List ℕ → Option LoggingLevel
level_of value =
    if same_text value (codes "debug")
    then some debug
    else if same_text value (codes "info")
    then some info
    else if same_text value (codes "warning")
    then some warning
    else if same_text value (codes "error")
    then some error
    else if same_text value (codes "critical")
    then some critical
    else none

-- What is found, or else what was there.
abbrev pub or_kept : {A : Type 0} → Option A → A → A
or_kept none kept = kept
or_kept (some found) kept = found

abbrev pub or_unset : {A : Type 0} → Option A → Option A → Option A
or_unset none kept = kept
or_unset (some found) kept = some found

unfoldable pub set_parameter : List ℕ × List ℕ → Arguments → Arguments
unfolding adapter_of level_of
set_parameter (key, value) a =
    if same_text key (codes "--can_adapter")
    then record a { can_adapter = or_kept (adapter_of value) a.can_adapter }
    else if same_text key (codes "--can_channel")
    then record a { can_channel = value }
    else if same_text key (codes "--log_level")
    then record a { log_level = or_unset (level_of value) a.log_level }
    else a

unfoldable pub parse_parameter : List ℕ → Arguments → Arguments
unfolding set_parameter
parse_parameter parameter a = elim (split_parameter parameter) [
  | none ↦ a
  | some split ↦ set_parameter split a
]

-- `none` if the process ends with the exit code 0.
unfoldable pub process : List (List ℕ) → Arguments → Option Arguments
unfolding is_exit parse_option parse_parameter lower
process [] a = some a
process (argument ∷ rest) a =
    let arg = lower argument in
    let done = process rest (parse_parameter arg (parse_option arg a)) in
    if is_exit arg then none else done

-- The driver for the channel of SocketCAN, in a build that has it.
unfoldable pub create_can_driver : Bool → Arguments → Option (List ℕ)
create_can_driver socketcan_available a = elim a.can_adapter [
  | adapter_socketcan ↦
      if socketcan_available
      then some (if same_text a.can_channel [] then codes "can0" else a.can_channel)
      else none
  | no_adapter ↦ none
  | adapter_pcan_usb ↦ none
  | adapter_innomaker_usb2can ↦ none
  | adapter_rusoku_toucan ↦ none
  | adapter_sys_tec_usb2can ↦ none
]

-- What the program does with the application, in order.
pub data Action : Type 0 where
  installs_crash_handlers sets_up_file_logging creates_application initializes : Action
  updates logs_crash stops_application flushes_log : Action

-- How a call of `initialize` or `update` ends.
pub data Ending : Type 0 where
  returns : Bool → Ending
  throws : Ending

-- One round of the loop: whether `running` still holds at its test, and how `update` ends.
pub record Round : Type 0 where
  pub running : Bool
  pub update : Ending

abbrev pub shut_down : List Action
shut_down = stops_application ∷ flushes_log ∷ []

-- One round, by `running`, the end of `update`, and the rounds after it.
abbrev pub after_round : Bool → Ending → List Action × Bool → List Action × Bool
after_round false update later = (shut_down, true)
after_round true (returns true) (actions, ended) = (updates ∷ actions, ended)
after_round true (returns false) later = (updates ∷ shut_down, true)
after_round true throws later = (updates ∷ logs_crash ∷ shut_down, true)

-- The loop over the rounds that there are; the actions, and whether it ended.
unfoldable pub loop : List Round → List Action × Bool
loop [] = ([], false)
loop (round ∷ rest) = after_round round.running round.update (loop rest)

-- The exit codes 0 and -1.
pub data ExitCode : Type 0 where
  success failure : ExitCode

abbrev pub exit_code : Bool → Option ExitCode
exit_code ended = if ended then some success else none

-- There is no exit code while the loop runs.
unfoldable pub run_application_loop : Ending → List Round → List Action × Option ExitCode
unfolding loop
run_application_loop (returns true) rounds =
    let (actions, ended) = loop rounds in
    (creates_application ∷ initializes ∷ actions, exit_code ended)
run_application_loop (returns false) rounds =
    (creates_application ∷ initializes ∷ shut_down, some failure)
run_application_loop throws rounds =
    (creates_application ∷ initializes ∷ logs_crash ∷ shut_down, some success)

-- `prepare_application`: the driver if there is one, and whether the process has ended.
unfoldable pub prepare_application : Bool → List (List ℕ) → List Action × Option (Option (List ℕ))
unfolding process create_can_driver
prepare_application socketcan_available arguments = elim (process arguments no_arguments) [
  | none ↦ ([], none)
  | some a ↦ (
    if a.file_logging then sets_up_file_logging ∷ [] else [],
    some (create_can_driver socketcan_available a),
  )
]

-- `main`
unfoldable pub run_main : Bool → List (List ℕ) → Ending → List Round → List Action × Option ExitCode
unfolding prepare_application run_application_loop
run_main socketcan_available arguments initialized rounds =
    let (prepared, driver) = prepare_application socketcan_available arguments in
    elim driver [
      | none ↦ (installs_crash_handlers ∷ prepared, some success)
      | some none ↦ (installs_crash_handlers ∷ prepared, some failure)
      | some (some channel) ↦
          let (actions, code) = run_application_loop initialized rounds in
          (installs_crash_handlers ∷ (prepared ++ actions), code)
    ]
