-- ===== src/Client/ParentOff.antt =====
-- `get_section_actual_state`: a section whose element, or an element above it, is reported as off.
use aog_task_controller.Prelude.{
  ℕ, ◌<◌, ◌≡◌, refl, ap, ◌∙◌, inl, inr, Bool, true, false, Option, none, some, arith, ltb,
  if◌then◌else◌, if_true, if_false, Bool-cases, lt→ltb, get_or,
}
use aog_task_controller.Prelude.Map.{find}
use aog_task_controller.Hierarchy.Chain.{Ancestor, any_in_chain_iff}
use aog_task_controller.Client.{
  ClientState, is_recorded_off, try_get_element_work_state, is_element_or_parent_off,
  get_element_number_for_section, get_section_actual_state,
}
use aog_task_controller.Client.SectionState

recorded_off : (o : Option Bool) → is_recorded_off o ≡ true → o ≡ some false
recorded_off none h = absurd (ground arith)
recorded_off (some true) h = absurd (ground arith)
recorded_off (some false) h = refl

module _ {P : Type 0} (s : ClientState P) where
  -- An element is recorded as off itself.
  abbrev pub IsOff : ℕ → Type 0
  IsOff element = find element s.element_work_states ≡ some false

  abbrev test : ℕ → Bool
  test element = is_recorded_off (try_get_element_work_state s element)

  parent_off :
      (element a : ℕ)
      → Ancestor s.element_parents element a
      → IsOff a
      → is_element_or_parent_off s element ≡ true
  unfolding is_element_or_parent_off try_get_element_work_state
  parent_off element a above off =
      (any_in_chain_iff s.element_parents element test).1 (a, above, ap is_recorded_off off)

  none-IsOff :
      (element : ℕ)
      → ((a : ℕ) → Ancestor s.element_parents element a → ¬ IsOff a)
      → is_element_or_parent_off s element ≡ false
  unfolding is_element_or_parent_off try_get_element_work_state
  none-IsOff element none_is = elim (Bool-cases (is_element_or_parent_off s element)) [
    | inr fine ↦ fine
    | inl off ↦
        let (a, above, hit) = (any_in_chain_iff s.element_parents element test).0 off in
        absurd (none_is a above (recorded_off (find a s.element_work_states) hit))
  ]

  actual_state :
      (section : ℕ) (off : Bool)
      → section < s.number_of_sections
      → s.uses_per_element_control ≡ false
      → is_element_or_parent_off s (get_element_number_for_section s section) ≡ off
      → get_section_actual_state s section ≡ (
          if off then SectionState.off else get_or s.section_actual_states section SectionState.off)
  unfolding get_section_actual_state
  actual_state section off inside condensed known =
      let stored = get_or s.section_actual_states section SectionState.off in
      let here = is_element_or_parent_off s (get_element_number_for_section s section) in
      let by_parents = if here then SectionState.off else stored in
      let inner = if s.uses_per_element_control then stored else by_parents in
      if_true (ltb section s.number_of_sections) inner SectionState.not_installed
        (lt→ltb section s.number_of_sections inside)
      ∙ if_false s.uses_per_element_control stored by_parents condensed
      ∙ ap (λ b. if b then SectionState.off else stored) known

  -- A section whose element, or an element above it, was reported as off counts as off, whatever was
  -- reported of the section, for a client that is not under per-element control.
  pub get_section_actual_state-off :
      (section a : ℕ)
      → section < s.number_of_sections
      → s.uses_per_element_control ≡ false
      → Ancestor s.element_parents (get_element_number_for_section s section) a
      → IsOff a
      → get_section_actual_state s section ≡ SectionState.off
  get_section_actual_state-off section a inside condensed above off =
      actual_state section true inside condensed
        (parent_off (get_element_number_for_section s section) a above off)

  -- Where no such element was reported as off, the section counts as it was reported itself, for a
  -- client that is not under per-element control.
  pub get_section_actual_state_reported :
      (section : ℕ)
      → section < s.number_of_sections
      → s.uses_per_element_control ≡ false
      → ((a : ℕ)
          → Ancestor s.element_parents (get_element_number_for_section s section) a
          → ¬ IsOff a)
      → get_section_actual_state s section ≡ get_or s.section_actual_states section SectionState.off
  get_section_actual_state_reported section inside condensed none_is =
      actual_state section false inside condensed
        (none-IsOff (get_element_number_for_section s section) none_is)
