-- ===== src/Start/Given.antt =====
-- What one argument of the command line gives: the value after a key and the sign '=', and the tables.
use aog_task_controller.Prelude.{
  ℕ, ◌≡◌, ◌==◌, ◌+◌, ◌++◌, leb, not, ◌&&◌, refl, ap, ◌∙◌, inl, inr, Bool, true, false, List, [],
  ◌∷◌, Option, none, some, arith, if◌then◌else◌, Bool-cases,
}
use aog_task_controller.Prelude.Text.{codes, same_text}
use aog_task_controller.Start.CanAdapter.{
  adapter_pcan_usb, adapter_innomaker_usb2can, adapter_rusoku_toucan, adapter_sys_tec_usb2can,
  adapter_socketcan,
}
use aog_task_controller.Start.LoggingLevel.{debug, info, warning, error, critical}
use aog_task_controller.Start.{
  CanAdapter, LoggingLevel, lower, split_parameter, adapter_of, level_of,
}

-- The letters from A to Z become small.
abbrev pub small : List ℕ → List ℕ
small [] = []
small (c ∷ rest) = (if leb 65 c && leb c 90 then c + 32 else c) ∷ small rest

pub lower-small : (text : List ℕ) → lower text ≡ small text
unfolding lower
lower-small [] = refl
lower-small (c ∷ rest) =
    ap (λ t. (if leb 65 c && leb c 90 then c + 32 else c) ∷ t) (lower-small rest)

-- What follows a prefix, if the text begins with it.
unfoldable pub after_prefix : List ℕ → List ℕ → Option (List ℕ)
after_prefix [] text = some text
after_prefix (p ∷ prefix) [] = none
after_prefix (p ∷ prefix) (c ∷ text) =
    let rest = after_prefix prefix text in if c == p then rest else none

-- The value of a split argument that is for a key.
abbrev pub value_for : List ℕ → Option (List ℕ × List ℕ) → Option (List ℕ)
value_for key none = none
value_for key (some (k, value)) = if same_text k key then some value else none

-- The entry of a table.
unfoldable pub entry : {A : Type 0} → List (List ℕ × A) → List ℕ → Option A
entry [] text = none
entry ((key, a) ∷ rest) text =
    let later = entry rest text in if same_text text key then some a else later

abbrev pub adapters : List (List ℕ × CanAdapter)
adapters =
    (codes "peak-pcan", adapter_pcan_usb)
    ∷ (codes "innomaker-usb2can", adapter_innomaker_usb2can)
    ∷ (codes "rusoku-toucan", adapter_rusoku_toucan)
    ∷ (codes "sys-tec-usb2can", adapter_sys_tec_usb2can)
    ∷ (codes "socketcan", adapter_socketcan)
    ∷ []

abbrev pub levels : List (List ℕ × LoggingLevel)
levels =
    (codes "debug", debug)
    ∷ (codes "info", info)
    ∷ (codes "warning", warning)
    ∷ (codes "error", error)
    ∷ (codes "critical", critical)
    ∷ []

pub adapter_of-entry : (value : List ℕ) → adapter_of value ≡ entry adapters value
unfolding adapter_of entry
adapter_of-entry value = refl

pub level_of-entry : (value : List ℕ) → level_of value ≡ entry levels value
unfolding level_of entry
level_of-entry value = refl

abbrev has_no_equals : List ℕ → Bool
has_no_equals [] = true
has_no_equals (c ∷ rest) = not (c == 61) && has_no_equals rest

empty_key :
    (c : ℕ) (split : Option (List ℕ × List ℕ))
    → value_for [] (elim split [ none ↦ none | some (key, value) ↦ some (c ∷ key, value) ]) ≡ none
empty_key c none = refl
empty_key c (some (key, value)) = refl

longer_key :
    (c k : ℕ) (key : List ℕ) (split : Option (List ℕ × List ℕ))
    → value_for (k ∷ key) (elim split [ none ↦ none | some (r, value) ↦ some (c ∷ r, value) ])
      ≡ (if c == k then value_for key split else none)
longer_key c k key none = ground arith
longer_key c k key (some (r, value)) = ground arith

-- An argument is split for a key exactly if it begins with the key and the sign '='.
value_for-split_parameter :
    (key text : List ℕ)
    → has_no_equals key ≡ true
    → value_for key (split_parameter text) ≡ after_prefix (key ++ (61 ∷ [])) text
unfolding split_parameter after_prefix
value_for-split_parameter [] [] none_there = refl
value_for-split_parameter (k ∷ key) [] none_there = refl
value_for-split_parameter [] (c ∷ text) none_there = elim (Bool-cases (c == 61)) [
  | inl sign ↦ rw sign refl
  | inr other ↦ rw other (empty_key c (split_parameter text))
]
value_for-split_parameter (k ∷ key) (c ∷ text) none_there = elim (Bool-cases (c == 61)) [
  | inl sign ↦
      let apart : (c == k) ≡ false = ground (arith, sign, none_there) in rw (sign, apart) refl
  | inr other ↦ rw other (
      longer_key c k key (split_parameter text)
      ∙ ap (λ (v : Option (List ℕ)). if c == k then v else none)
          (value_for-split_parameter key text (ground (arith, none_there))))
]

-- The value that an argument gives for a key, as in `--log_level=info`.
abbrev pub given : List ℕ → List ℕ → Option (List ℕ)
given key argument = after_prefix (key ++ codes "=") (small argument)

pub given_split :
    (key argument : List ℕ)
    → has_no_equals key ≡ true
    → value_for key (split_parameter (lower argument)) ≡ given key argument
given_split key argument none_there =
    value_for-split_parameter key (lower argument) none_there
    ∙ ap (after_prefix (key ++ codes "=")) (lower-small argument)
