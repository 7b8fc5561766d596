-- ===== src/Server/Setpoints/Packing.antt =====
-- The 32-bit value of a condensed message holds the setpoints of its sixteen sections.
use aog_task_controller.Prelude.{
  ℕ, zero, suc, ◌+◌, ◌*◌, ◌/◌, ◌%◌, ◌^◌, ◌≤◌, ◌<◌, ◌≡◌, refl, ap, ◌∙◌, subst, arith, ltb, if_both,
  u8,
}
use aog_task_controller.Prelude.Fields.{fields, fields-read, fields-suc}
use aog_task_controller.Client.{ClientState, get_section_setpoint_state, sections_per_message}
use aog_task_controller.Client.Invariant.{IsValid, get_or-AllStates}
use aog_task_controller.Server.Setpoints.{pack_state, pack_states, condensed_value}

module _ {P : Type 0} (s : ClientState P) (v : IsValid s) where
  pub get_section_setpoint_state-lt : (section : ℕ) → get_section_setpoint_state s section < 4
  unfolding get_section_setpoint_state
  get_section_setpoint_state-lt section =
      if_both (λ (n : ℕ). n < 4) (ltb section s.number_of_sections) _ _
        (get_or-AllStates s.section_setpoint_states section 0 v.setpoint_states (omega arith))
        (omega arith)

  -- The states that the loop reads, by the index of the loop.
  abbrev state_at : ℕ → ℕ → ℕ
  state_at offset i = get_section_setpoint_state s (u8 (offset + i))

  pack_states-fields :
      (offset rounds i : ℕ)
      → i + rounds ≤ 16
      → pack_states s offset rounds i (fields (state_at offset) i)
        ≡ fields (state_at offset) (i + rounds)
  unfolding pack_states pack_state
  pack_states-fields offset zero i h = let e : i + 0 ≡ i = omega arith in rw e refl
  pack_states-fields offset (suc rounds) i h =
      let e : i + suc rounds ≡ suc i + rounds = omega arith in
      let n : i + 1 ≡ suc i = omega arith in
      let f = state_at offset in
      let one =
        fields-suc f (λ k. get_section_setpoint_state-lt (u8 (offset + k))) i (omega arith) in
      rw (one, n, e) (pack_states-fields offset rounds (suc i) (omega arith))

  -- For a valid state, field i of the value for message `ddi_offset` is the setpoint state of section
  -- 16 * ddi_offset + i, which is "not installed" for a section that there is not.
  pub condensed_value_read :
      (ddi_offset i : ℕ)
      → ddi_offset < 16
      → i < 16
      → condensed_value s ddi_offset / 2 ^ (2 * i) % 4
        ≡ get_section_setpoint_state s (16 * ddi_offset + i)
  unfolding condensed_value
  condensed_value_read ddi_offset i h k =
      let e : u8 (u8 (ddi_offset * 16) + i) ≡ 16 * ddi_offset + i = omega arith in
      let offset = u8 (ddi_offset * sections_per_message) in
      let f = state_at offset in
      let none_yet : fields f 0 ≡ 0 = unfold fields in refl in
      let all : pack_states s offset 16 0 0 ≡ fields f 16 =
        subst (λ z. pack_states s offset 16 0 z ≡ fields f 16) none_yet
          (pack_states-fields offset 16 0 (omega arith)) in
      rw all (
        fields-read f (λ k. get_section_setpoint_state-lt (u8 (offset + k))) 16 i k
        ∙ ap (get_section_setpoint_state s) e)
