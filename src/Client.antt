-- ===== src/Client.antt =====
-- `ClientState` of include/task_controller.hpp and src/task_controller.cpp: what the server keeps of
-- one client. A method that changes the object returns the new record. `P` is the library's pool type.
-- A vector is read by `get_or`, with a default past its end; `Client.Invariant` shows that no guarded
-- read comes there.
pub mod SectionState
pub mod Invariant
pub mod ParentOff
use aog_task_controller.Prelude.{
  ℕ, ◌≡◌, Bool, true, false, not, ◌&&◌, List, [], Option, none, some, ltb, ◌==◌, if◌then◌else◌,
  length, get_or, set, resize, any,
}
use aog_task_controller.Prelude.Map.{Map, find, assign, contains, or_default}
use SectionState
use aog_task_controller.Isobus.{PoolLibrary}
use aog_task_controller.Hierarchy.{ParentMap, build_parent_map, any_in_chain}

-- `NUMBER_SECTIONS_PER_CONDENSED_MESSAGE`
abbrev pub sections_per_message : ℕ
sections_per_message = 16

pub record ClientState (P : Type 0) : Type 0 where
  pub pool : P
  pub measurement_commands_sent : Bool
  pub ddi_to_element_number : Map ℕ
  pub number_of_sections : ℕ
  pub section_setpoint_states : List ℕ
  pub section_actual_states : List ℕ
  pub section_to_element_number : List ℕ
  pub element_to_section : Map ℕ
  pub setpoint_work_state : Bool
  pub actual_work_state : Bool
  pub element_work_states : Map Bool
  pub element_parents : ParentMap
  pub section_control_enabled : Bool
  pub uses_per_element_control : Bool
  pub per_element_setpoint_ddi : ℕ

-- The predicate that `is_element_or_parent_off` hands to the walk.
abbrev pub is_recorded_off : Option Bool → Bool
is_recorded_off none = false
is_recorded_off (some working) = not working

module _ {P : Type 0} where
  -- `ClientState()`: value-initialisation zeroes `numberOfSections`, which has no initialiser.
  unfoldable pub new_state : P → ClientState P
  new_state pool = record {
    pool = pool;
    measurement_commands_sent = false;
    ddi_to_element_number = [];
    number_of_sections = 0;
    section_setpoint_states = [];
    section_actual_states = [];
    section_to_element_number = [];
    element_to_section = [];
    setpoint_work_state = false;
    actual_work_state = false;
    element_work_states = [];
    element_parents = [];
    section_control_enabled = false;
    uses_per_element_control = false;
    per_element_setpoint_ddi = 0;
  }

  unfoldable pub set_number_of_sections : ClientState P → ℕ → ClientState P
  set_number_of_sections s number = record s {
    number_of_sections = number;
    section_setpoint_states = resize s.section_setpoint_states number 0;
    section_actual_states = resize s.section_actual_states number 0;
    section_to_element_number = resize s.section_to_element_number number 0;
  }

  unfoldable pub set_section_setpoint_state : ClientState P → ℕ → ℕ → ClientState P
  set_section_setpoint_state s section state =
      if ltb section s.number_of_sections
      then record s { section_setpoint_states = set s.section_setpoint_states section state }
      else s

  unfoldable pub set_section_actual_state : ClientState P → ℕ → ℕ → ClientState P
  set_section_actual_state s section state =
      if ltb section s.number_of_sections
      then record s { section_actual_states = set s.section_actual_states section state }
      else s

  abbrev has_element_slot : ClientState P → ℕ → Bool
  has_element_slot s section =
      ltb section s.number_of_sections && ltb section (length s.section_to_element_number)

  unfoldable pub get_element_number_for_section : ClientState P → ℕ → ℕ
  get_element_number_for_section s section =
      if has_element_slot s section then get_or s.section_to_element_number section 0 else 0

  unfoldable pub set_element_number_for_section : ClientState P → ℕ → ℕ → ClientState P
  set_element_number_for_section s section element_number =
      if has_element_slot s section
      then record s {
        section_to_element_number = set s.section_to_element_number section element_number;
        element_to_section = assign element_number section s.element_to_section;
      }
      else s

  unfoldable pub try_get_section_for_element : ClientState P → ℕ → Option ℕ
  try_get_section_for_element s element_number = find element_number s.element_to_section

  unfoldable pub get_section_setpoint_state : ClientState P → ℕ → ℕ
  get_section_setpoint_state s section =
      if ltb section s.number_of_sections
      then get_or s.section_setpoint_states section SectionState.off
      else SectionState.not_installed

  unfoldable pub try_get_element_work_state : ClientState P → ℕ → Option Bool
  try_get_element_work_state s element_number = find element_number s.element_work_states

  unfoldable pub is_element_or_parent_off : ClientState P → ℕ → Bool
  unfolding try_get_element_work_state
  is_element_or_parent_off s element_number =
      any_in_chain s.element_parents element_number
        λ element. is_recorded_off (try_get_element_work_state s element)

  unfoldable pub get_section_actual_state : ClientState P → ℕ → ℕ
  get_section_actual_state s section =
      if ltb section s.number_of_sections
      then if s.uses_per_element_control
        then get_or s.section_actual_states section SectionState.off
        else if is_element_or_parent_off s (get_element_number_for_section s section)
        then SectionState.off
        else get_or s.section_actual_states section SectionState.off
      else SectionState.not_installed

  unfoldable pub is_any_section_setpoint_on : ClientState P → Bool
  is_any_section_setpoint_on s = any (λ state. state == SectionState.on) s.section_setpoint_states

  unfoldable pub set_setpoint_work_state : ClientState P → Bool → ClientState P
  set_setpoint_work_state s state = record s { setpoint_work_state = state }

  unfoldable pub set_actual_work_state : ClientState P → Bool → ClientState P
  set_actual_work_state s state = record s { actual_work_state = state }

  unfoldable pub set_section_control_enabled : ClientState P → Bool → ClientState P
  set_section_control_enabled s state = record s { section_control_enabled = state }

  unfoldable pub set_uses_per_element_control : ClientState P → Bool → ClientState P
  set_uses_per_element_control s state = record s { uses_per_element_control = state }

  unfoldable pub set_per_element_setpoint_ddi : ClientState P → ℕ → ClientState P
  set_per_element_setpoint_ddi s ddi = record s { per_element_setpoint_ddi = ddi }

  unfoldable pub mark_measurement_commands_sent : ClientState P → ClientState P
  mark_measurement_commands_sent s = record s { measurement_commands_sent = true }

  -- A missing entry is logged, and 0 is returned.
  unfoldable pub get_element_number_for_ddi : ClientState P → ℕ → ℕ
  get_element_number_for_ddi s ddi = or_default (find ddi s.ddi_to_element_number) 0

  unfoldable pub set_element_number_for_ddi : ClientState P → ℕ → ℕ → ClientState P
  set_element_number_for_ddi s ddi element_number = record s {
    ddi_to_element_number = assign ddi element_number s.ddi_to_element_number;
  }

  unfoldable pub has_element_number_for_ddi : ClientState P → ℕ → Bool
  has_element_number_for_ddi s ddi = contains ddi s.ddi_to_element_number

  unfoldable pub set_element_work_state : ClientState P → ℕ → Bool → ClientState P
  set_element_work_state s element_number is_working = record s {
    element_work_states = assign element_number is_working s.element_work_states;
  }

module _ (lib : PoolLibrary) where
  open lib use {Pool}

  unfoldable pub build_element_hierarchy : ClientState Pool → ClientState Pool
  build_element_hierarchy s = record s { element_parents = build_parent_map lib s.pool }
