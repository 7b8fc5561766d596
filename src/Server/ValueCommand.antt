-- ===== src/Server/ValueCommand.antt =====
-- `MyTCServer::on_value_command`: what a client reports of its sections.
pub mod Condensed
use aog_task_controller.Prelude.{
  ℕ, zero, suc, ◌+◌, ◌-◌, ◌*◌, ◌/◌, ◌%◌, ◌^◌, Bool, true, false, ◌||◌, Option, none, some, ◌==◌,
  if◌then◌else◌, u8,
}
use aog_task_controller.Isobus.{DataDictionary}
use aog_task_controller.Client.{
  ClientState, sections_per_message, set_section_actual_state, set_element_number_for_section,
  set_section_control_enabled, set_element_work_state, try_get_section_for_element,
}
use aog_task_controller.Client.SectionState
use aog_task_controller.Server.{Server, client_at, set_client}

-- The sixteen labels of the `switch`.
unfoldable pub is_condensed_from : (ℕ → ℕ) → ℕ → ℕ → Bool
is_condensed_from label zero ddi = false
is_condensed_from label (suc k) ddi = ddi == label k || is_condensed_from label k ddi

unfoldable pub is_actual_condensed : DataDictionary → ℕ → Bool
is_actual_condensed dd ddi = is_condensed_from dd.actual_condensed_work_state 16 ddi

module _ {P : Type 0} where
  -- The body of the loop over the sixteen sections. `value` is the 32 bits of the signed value, of
  -- which the low two after a shift are the same as those of the arithmetic shift.
  unfoldable pub report_section : ℕ → ℕ → ℕ → ℕ → ClientState P → ClientState P
  report_section offset element_number value i s =
      let state = value / 2 ^ (2 * i) % 4 in
      set_element_number_for_section (set_section_actual_state s (u8 (i + offset)) state)
        (u8 (i + offset)) element_number

  -- The rounds left, and the index of the next.
  unfoldable pub report_sections : ℕ → ℕ → ℕ → ℕ → ℕ → ClientState P → ClientState P
  unfolding report_section
  report_sections offset element_number value zero i s = s
  report_sections offset element_number value (suc rounds) i s =
      report_sections offset element_number value rounds (i + 1)
        (report_section offset element_number value i s)

  unfoldable pub report_condensed : DataDictionary → ℕ → ℕ → ℕ → ClientState P → ClientState P
  report_condensed dd ddi element_number value s =
      let first = dd.actual_condensed_work_state 0 in
      let offset = u8 (sections_per_message * u8 (ddi - first)) in
      report_sections offset element_number value 16 0 s

  unfoldable pub report_section_of_element : Option ℕ → Bool → ClientState P → ClientState P
  report_section_of_element none working s = s
  report_section_of_element (some section) working s =
      set_section_actual_state s section (if working then SectionState.on else SectionState.off)

  -- The propagation to the section of the element is for per-element control alone.
  unfoldable pub report_work_state : ℕ → ℕ → ClientState P → ClientState P
  unfolding report_section_of_element
  report_work_state element_number value s =
      let s' = set_element_work_state s element_number (value == 1) in
      if s'.uses_per_element_control
      then report_section_of_element (try_get_section_for_element s' element_number) (value == 1) s'
      else s'

  -- The whole `switch`; the result is what `clients[partner]` becomes, and `none` where no case is
  -- taken, so that the map is left alone.
  unfoldable pub value_command : DataDictionary → ℕ → ℕ → ℕ → ClientState P → Option (ClientState P)
  value_command dd ddi element_number value s =
      if is_actual_condensed dd ddi
      then some (report_condensed dd ddi element_number value s)
      else if ddi == dd.section_control_state
      then some (set_section_control_enabled s (value == 1))
      else if ddi == dd.actual_work_state
      then some (report_work_state element_number value s)
      else none

  abbrev pub store_client : Server P → ℕ → Option (ClientState P) → Server P
  store_client server partner none = server
  store_client server partner (some s) = set_client server partner s

  unfoldable pub on_value_command : DataDictionary → P → Server P → ℕ → ℕ → ℕ → ℕ → Server P × Bool
  on_value_command dd fresh server partner ddi element_number value =
      let s = client_at fresh server partner in
      (store_client server partner (value_command dd ddi element_number value s), true)
