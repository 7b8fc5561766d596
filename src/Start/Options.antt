-- ===== src/Start/Options.antt =====
-- The arguments of the command line: each setting comes from the last argument that gives it.
use aog_task_controller.Prelude.{
  ℕ, ◌≡◌, refl, ap, ◌∙◌, sym, inl, inr, Bool, true, false, ◌||◌, List, [], ◌∷◌, Option, none, some,
  arith, if◌then◌else◌, Bool-cases,
}
use aog_task_controller.Prelude.Text.{codes, same_text, same_text_eq}
use aog_task_controller.Start.{
  CanAdapter, LoggingLevel, Arguments, lower, is_exit, parse_option, parse_parameter, set_parameter,
  split_parameter, adapter_of, level_of, or_kept, or_unset, process,
}
use aog_task_controller.Start.Given.{
  small, lower-small, value_for, given, given_split, entry, adapters, levels, adapter_of-entry,
  level_of-entry,
}

-- The last of the arguments that gives something.
unfoldable pub last_given : {A : Type 0} → (List ℕ → Option A) → List (List ℕ) → Option A
last_given f [] = none
last_given f (argument ∷ rest) = or_unset (last_given f rest) (f argument)

abbrev then_find : {A B : Type 0} → Option A → (A → Option B) → Option B
then_find none f = none
then_find (some a) f = f a

then_find_eq :
    {A B : Type 0} (o : Option A) (f g : A → Option B)
    → ((a : A) → f a ≡ g a)
    → then_find o f ≡ then_find o g
then_find_eq none f g same = refl
then_find_eq (some a) f g same = same a

abbrev pub channel_given : List ℕ → Option (List ℕ)
channel_given argument = given (codes "--can_channel") argument

abbrev pub adapter_given : List ℕ → Option CanAdapter
adapter_given argument = then_find (given (codes "--can_adapter") argument) (entry adapters)

abbrev pub level_given : List ℕ → Option LoggingLevel
level_given argument = then_find (given (codes "--log_level") argument) (entry levels)

abbrev pub any_argument : (List ℕ → Bool) → List (List ℕ) → Bool
any_argument f [] = false
any_argument f (argument ∷ rest) = f (small argument) || any_argument f rest

abbrev pub ends_process : List ℕ → Bool
ends_process option = same_text option (codes "--help") || same_text option (codes "--version")

abbrev is_log2file : List ℕ → Bool
is_log2file option = same_text option (codes "--log2file")

-- The arguments without the order of the processing.
unfoldable pub collected : List (List ℕ) → Arguments → Arguments
collected arguments a = record {
  can_adapter = or_kept (last_given adapter_given arguments) a.can_adapter;
  can_channel = or_kept (last_given channel_given arguments) a.can_channel;
  file_logging = a.file_logging || any_argument is_log2file arguments;
  log_level = or_unset (last_given level_given arguments) a.log_level;
}

-- One argument.
step : List ℕ → Arguments → Arguments
unfolding parse_option parse_parameter
step argument a = parse_parameter (lower argument) (parse_option (lower argument) a)

-- A text is one key at most.
other_key : (k s t : List ℕ) → same_text s t ≡ false → same_text k s ≡ true → same_text k t ≡ false
other_key k s t apart h = rw (same_text_eq k s h) apart

set_adapter :
    (key value : List ℕ) (a : Arguments)
    → (set_parameter (key, value) a).can_adapter
      ≡ or_kept
          (then_find
            (if same_text key (codes "--can_adapter") then some value else none)
            adapter_of)
          a.can_adapter
unfolding set_parameter
set_adapter key value a = ground arith

set_channel :
    (key value : List ℕ) (a : Arguments)
    → (set_parameter (key, value) a).can_channel
      ≡ or_kept (if same_text key (codes "--can_channel") then some value else none) a.can_channel
unfolding set_parameter
set_channel key value a =
    ground (arith, other_key key (codes "--can_adapter") (codes "--can_channel") refl)

set_level :
    (key value : List ℕ) (a : Arguments)
    → (set_parameter (key, value) a).log_level
      ≡ or_unset
          (then_find (if same_text key (codes "--log_level") then some value else none) level_of)
          a.log_level
unfolding set_parameter
set_level key value a = ground (
  arith,
  other_key key (codes "--can_adapter") (codes "--log_level") refl,
  other_key key (codes "--can_channel") (codes "--log_level") refl,
)

set_logging :
    (split : List ℕ × List ℕ) (a : Arguments)
    → (set_parameter split a).file_logging ≡ a.file_logging
unfolding set_parameter
set_logging (key, value) a = ground arith

-- What an argument does, from how it is split.
abbrev apply_split : Option (List ℕ × List ℕ) → Arguments → Arguments
apply_split split a = elim split [ none ↦ a | some s ↦ set_parameter s a ]

parameter_adapter :
    (split : Option (List ℕ × List ℕ)) (before a : Arguments)
    → before.can_adapter ≡ a.can_adapter
    → (apply_split split before).can_adapter
      ≡ or_kept (then_find (value_for (codes "--can_adapter") split) adapter_of) a.can_adapter
parameter_adapter none before a same = same
parameter_adapter (some (key, value)) before a same = rw (sym same) (set_adapter key value before)

step_adapter :
    (argument : List ℕ) (a : Arguments)
    → (step argument a).can_adapter ≡ or_kept (adapter_given argument) a.can_adapter
unfolding step parse_parameter
step_adapter argument a =
    let option = lower argument in
    parameter_adapter (split_parameter option) (parse_option option a) a
      (unfold parse_option in ground arith)
    ∙ ap (λ v. or_kept (then_find v adapter_of) a.can_adapter)
        (given_split (codes "--can_adapter") argument refl)
    ∙ ap (λ o. or_kept o a.can_adapter)
        (then_find_eq (given (codes "--can_adapter") argument) adapter_of (entry adapters)
          adapter_of-entry)

parameter_channel :
    (split : Option (List ℕ × List ℕ)) (before a : Arguments)
    → before.can_channel ≡ a.can_channel
    → (apply_split split before).can_channel
      ≡ or_kept (value_for (codes "--can_channel") split) a.can_channel
parameter_channel none before a same = same
parameter_channel (some (key, value)) before a same = rw (sym same) (set_channel key value before)

step_channel :
    (argument : List ℕ) (a : Arguments)
    → (step argument a).can_channel ≡ or_kept (channel_given argument) a.can_channel
unfolding step parse_parameter
step_channel argument a =
    let option = lower argument in
    parameter_channel (split_parameter option) (parse_option option a) a
      (unfold parse_option in ground arith)
    ∙ ap (λ v. or_kept v a.can_channel) (given_split (codes "--can_channel") argument refl)

parameter_level :
    (split : Option (List ℕ × List ℕ)) (before a : Arguments)
    → before.log_level ≡ a.log_level
    → (apply_split split before).log_level
      ≡ or_unset (then_find (value_for (codes "--log_level") split) level_of) a.log_level
parameter_level none before a same = same
parameter_level (some (key, value)) before a same = rw (sym same) (set_level key value before)

step_level :
    (argument : List ℕ) (a : Arguments)
    → (step argument a).log_level ≡ or_unset (level_given argument) a.log_level
unfolding step parse_parameter
step_level argument a =
    let option = lower argument in
    parameter_level (split_parameter option) (parse_option option a) a
      (unfold parse_option in ground arith)
    ∙ ap (λ v. or_unset (then_find v level_of) a.log_level)
        (given_split (codes "--log_level") argument refl)
    ∙ ap (λ o. or_unset o a.log_level)
        (then_find_eq (given (codes "--log_level") argument) level_of (entry levels) level_of-entry)

parameter_logging :
    (split : Option (List ℕ × List ℕ)) (a : Arguments)
    → (apply_split split a).file_logging ≡ a.file_logging
parameter_logging none a = refl
parameter_logging (some split) a = set_logging split a

step_logging :
    (argument : List ℕ) (a : Arguments)
    → (step argument a).file_logging ≡ (a.file_logging || is_log2file (small argument))
unfolding step parse_parameter
step_logging argument a =
    let option = lower argument in
    parameter_logging (split_parameter option) (parse_option option a)
    ∙ (unfold parse_option in ground arith)
    ∙ ap (λ t. a.file_logging || is_log2file t) (lower-small argument)

kept_last :
    {A : Type 0}
    → (later now : Option A) (first : A)
    → or_kept later (or_kept now first) ≡ or_kept (or_unset later now) first
kept_last none now first = refl
kept_last (some x) now first = refl

unset_last :
    {A : Type 0}
    → (later now first : Option A)
    → or_unset later (or_unset now first) ≡ or_unset (or_unset later now) first
unset_last none now first = refl
unset_last (some x) now first = refl

or_assoc : (b c d : Bool) → (b || c) || d ≡ (b || (c || d))
or_assoc true c d = refl
or_assoc false c d = refl

or_false : (b : Bool) → (b || false) ≡ b
or_false true = refl
or_false false = refl

collected-step :
    (argument : List ℕ) (rest : List (List ℕ)) (a : Arguments)
    → collected rest (step argument a) ≡ collected (argument ∷ rest) a
unfolding collected last_given
collected-step argument rest a =
    rw
      (
        step_adapter argument a,
        step_channel argument a,
        step_level argument a,
        step_logging argument a,
        kept_last (last_given adapter_given rest) (adapter_given argument) a.can_adapter,
        kept_last (last_given channel_given rest) (channel_given argument) a.can_channel,
        unset_last (last_given level_given rest) (level_given argument) a.log_level,
        or_assoc a.file_logging (is_log2file (small argument)) (any_argument is_log2file rest),
      )
      refl

-- For any arguments, whose letters A to Z count as small ones: if one of them is `--help` or `--version`
-- the process ends; else the channel is what follows `--can_channel=` in the last argument that begins
-- so, the adapter and the level come from the last one that begins with `--can_adapter=` or
-- `--log_level=` and goes on with an entry of the tables, the log goes to a file if one of the arguments
-- is `--log2file`, and what no argument gives stays as it was.
pub process-collected :
    (arguments : List (List ℕ)) (a : Arguments)
    → process arguments a
      ≡ (if any_argument ends_process arguments then none else some (collected arguments a))
unfolding process step collected is_exit
process-collected [] a = unfold last_given in ap some (rw (or_false a.file_logging) refl)
process-collected (argument ∷ rest) a =
    let same : is_exit (lower argument) ≡ ends_process (small argument) =
      ap ends_process (lower-small argument) in
    elim (Bool-cases (ends_process (small argument))) [
      | inl exits ↦ rw (same, exits) refl
      | inr goes_on ↦
          rw (same, goes_on)
            (process-collected rest (step argument a) ∙ (rw (collected-step argument rest a) refl))
    ]
