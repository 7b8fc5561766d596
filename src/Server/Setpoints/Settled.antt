-- ===== src/Server/Setpoints/Settled.antt =====
-- A demand that is met already causes no traffic.
use aog_task_controller.Prelude.{
  ℕ, zero, suc, ◌+◌, ◌≤◌, ◌<◌, ◌≡◌, refl, ap, ◌∙◌, sym, subst, inl, inr, Bool, false, ◌&&◌, not,
  List, [], arith, ltb, ◌==◌, bool_eq, if_true, if_false, length, get_or, Bool-cases, ℕ_discrete,
}
use aog_task_controller.Isobus.{DataDictionary, PoolLibrary}
use aog_task_controller.Client.{ClientState, get_section_setpoint_state}
use aog_task_controller.Client.Invariant.{IsValid}
use aog_task_controller.Server.Setpoints.{
  Progress, send_previous, apply_demand, update_sections, send_last, update_client_sections,
}
use aog_task_controller.Server.Setpoints.Demand.{
  wanted_state, update_client_sections_automatic, update_client_sections_manual,
  update_client_sections_empty, update_client_sections_setpoints, update_client_sections_number,
}

-- The test of the loop finds no difference.
abbrev IsSettled : List Bool → ℕ → ℕ → Type 0
IsSettled demand i state =
    (ltb i (length demand) && not (bool_eq (get_or demand i false) (state == 1))) ≡ false

wanted_state-IsSettled :
    (demand : List Bool) (i old : ℕ) → IsSettled demand i (wanted_state demand i old)
unfolding wanted_state
wanted_state-IsSettled demand i old = ground arith

module _ (lib : PoolLibrary) (dd : DataDictionary) where
  open lib use {Pool}

  send_previous_quiet :
      (client i : ℕ) (p : Progress lib dd)
      → p.requires_update ≡ false
      → send_previous lib dd client i p ≡ p
  unfolding send_previous
  send_previous_quiet client i p quiet = ground arith

  apply_demand_quiet :
      (demand : List Bool) (i : ℕ) (p : Progress lib dd)
      → i < p.state.number_of_sections
      → IsSettled demand i (get_or p.state.section_setpoint_states i 0)
      → apply_demand lib dd demand i p ≡ p
  unfolding apply_demand get_section_setpoint_state
  apply_demand_quiet demand i p inside settled =
      let state : get_section_setpoint_state p.state i
          ≡ get_or p.state.section_setpoint_states i 0 =
        if_true (ltb i p.state.number_of_sections) _ _ (ground arith) in
      if_false
        (ltb i (length demand)
          && not (bool_eq (get_or demand i false) (get_section_setpoint_state p.state i == 1)))
        _ _ (rw state settled)

  send_last_quiet :
      (client n : ℕ) (p : Progress lib dd)
      → p.requires_update ≡ false
      → send_last lib dd client n p ≡ p
  unfolding send_last
  send_last_quiet client n p quiet = if_false p.requires_update _ _ quiet

  update_sections_quiet :
      (client : ℕ) (demand : List Bool) (rounds i : ℕ) (p : Progress lib dd)
      → p.requires_update ≡ false
      → i + rounds ≤ p.state.number_of_sections
      → ((j : ℕ)
          → j < p.state.number_of_sections
          → IsSettled demand j (get_or p.state.section_setpoint_states j 0))
      → update_sections lib dd client demand rounds i p ≡ p
  unfolding update_sections
  update_sections_quiet client demand zero i p quiet fits settled = refl
  update_sections_quiet client demand (suc rounds) i p quiet fits settled =
      ap (λ q. update_sections lib dd client demand rounds (i + 1) (apply_demand lib dd demand i q))
        (send_previous_quiet client i p quiet)
      ∙ ap (update_sections lib dd client demand rounds (i + 1))
          (apply_demand_quiet demand i p (omega arith) (settled i (omega arith)))
      ∙ update_sections_quiet client demand rounds (i + 1) p quiet (omega arith) settled

  -- A client whose setpoints meet the demand gets no message and keeps its state.
  update_client_sections_settled :
      (demand : List Bool) (client : ℕ) (s : ClientState Pool)
      → ((j : ℕ)
          → j < s.number_of_sections
          → IsSettled demand j (get_or s.section_setpoint_states j 0))
      → update_client_sections lib dd demand client s ≡ (s, [])
  update_client_sections_settled demand client s settled =
      elim (Bool-cases s.section_control_enabled) [
        | inr manual ↦ update_client_sections_manual lib dd demand client s manual
        | inl enabled ↦ elim (ℕ_discrete s.number_of_sections 0) [
          | yes none_there ↦ update_client_sections_empty lib dd demand client s none_there
          | no some_there ↦
              let start : Progress lib dd = record {
                state = s;
                requires_update = false;
                sent = [];
              } in
              update_client_sections_automatic lib dd demand client s enabled (omega arith)
              ∙ ap (λ (p : Progress lib dd). (p.state, p.sent))
                  (ap (send_last lib dd client s.number_of_sections) (
                      update_sections_quiet client demand s.number_of_sections 0 start refl
                        (omega arith) settled)
                    ∙ send_last_quiet client s.number_of_sections start refl)
        ]
      ]

  -- The same demand twice: for a client with a valid state, the second call sends nothing and changes
  -- nothing, whatever the first one did.
  pub update_client_sections_twice :
      (demand : List Bool) (client : ℕ) (s : ClientState Pool)
      → IsValid s
      → let s' = (update_client_sections lib dd demand client s).0 in
        update_client_sections lib dd demand client s' ≡ (s', [])
  update_client_sections_twice demand client s v = elim (Bool-cases s.section_control_enabled) [
    | inr manual ↦
        let same = update_client_sections_manual lib dd demand client s manual in
        let first : (update_client_sections lib dd demand client s).0 ≡ s = ap (λ r. r.0) same in
        subst (λ t. update_client_sections lib dd demand client t ≡ (t, [])) (sym first) same
    | inl enabled ↦
        update_client_sections_settled demand client
          (update_client_sections lib dd demand client s).0
          λ j inside.
            subst (IsSettled demand j)
              (sym (
                update_client_sections_setpoints lib dd demand client s j v enabled
                  (omega (arith, update_client_sections_number lib dd demand client s))))
              (wanted_state-IsSettled demand j (get_or s.section_setpoint_states j 0))
  ]
