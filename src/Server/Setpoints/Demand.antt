-- ===== src/Server/Setpoints/Demand.antt =====
-- What `update_section_states` does to the setpoints of one client.
use aog_task_controller.Prelude.{
  ℕ, zero, suc, ◌+◌, ◌-◌, ◌/◌, ◌≤◌, ◌<◌, ◌≡◌, ◌≢◌, refl, ap, ◌∙◌, sym, subst, inl, inr, Bool, true,
  false, ◌&&◌, not, List, [], arith, ltb, ◌==◌, if◌then◌else◌, bool_eq, if_true, if_false, if_both,
  length, get_or, length-set, get_or-set_self, get_or-set_ne, ℕ_discrete, Bool-cases, u8,
}
use aog_task_controller.Isobus.{DataDictionary, PoolLibrary}
use aog_task_controller.Client.{
  ClientState, sections_per_message, get_section_setpoint_state, set_section_setpoint_state,
  set_setpoint_work_state,
}
use aog_task_controller.Client.Invariant.{IsValid}
use aog_task_controller.Server.{Message}
use aog_task_controller.Server.Setpoints.{
  Progress, send_setpoint_work_state, send_section_setpoint_states, send_block, send_previous,
  apply_demand, update_sections, send_last, update_client_sections,
}

-- The setpoint that one section should get, from the demand and its old setpoint.
unfoldable pub wanted_state : List Bool → ℕ → ℕ → ℕ
wanted_state demand i old =
    if ltb i (length demand) && not (bool_eq (get_or demand i false) (old == 1))
    then (if get_or demand i false then 1 else 0)
    else old

-- It is on exactly if the demand says so, and stays as it was where the demand says nothing.
pub wanted_state_on :
    (demand : List Bool) (i old : ℕ)
    → (i < length demand → (wanted_state demand i old == 1) ≡ get_or demand i false)
      × (length demand ≤ i → wanted_state demand i old ≡ old)
unfolding wanted_state
wanted_state_on demand i old = (λ h. ground arith, λ h. ground arith)

module _ (lib : PoolLibrary) (dd : DataDictionary) where
  open lib use {Pool}

  -- The parts of two states that decide a setpoint.
  abbrev SameSetpoints : ClientState Pool → ClientState Pool → Type 0
  SameSetpoints s t =
      (s.section_setpoint_states ≡ t.section_setpoint_states)
      × (s.number_of_sections ≡ t.number_of_sections)

  send_section_setpoint_states-SameSetpoints :
      (client : ℕ) (s : ClientState Pool) (ddi_offset : ℕ)
      → SameSetpoints (send_section_setpoint_states lib dd client s ddi_offset).0 s
  unfolding send_section_setpoint_states send_setpoint_work_state set_setpoint_work_state
  send_section_setpoint_states-SameSetpoints client s ddi_offset = ground arith

  send_block-SameSetpoints :
      (client ddi_offset : ℕ) (p : Progress lib dd)
      → SameSetpoints (send_block lib dd client ddi_offset p).state p.state
  unfolding send_block
  send_block-SameSetpoints client ddi_offset p =
      send_section_setpoint_states-SameSetpoints client p.state ddi_offset

  send_previous-SameSetpoints :
      (client i : ℕ) (p : Progress lib dd)
      → SameSetpoints (send_previous lib dd client i p).state p.state
  unfolding send_previous
  send_previous-SameSetpoints client i p =
      ground (arith, send_block-SameSetpoints client (u8 (i / sections_per_message - 1)) p)

  send_last-SameSetpoints :
      (client n : ℕ) (p : Progress lib dd)
      → SameSetpoints (send_last lib dd client n p).state p.state
  unfolding send_last
  send_last-SameSetpoints client n p =
      ground (arith, send_block-SameSetpoints client ((n - 1) / sections_per_message) p)

  apply_demand_self :
      (demand : List Bool) (i : ℕ) (p : Progress lib dd)
      → i < p.state.number_of_sections
      → length p.state.section_setpoint_states ≡ p.state.number_of_sections
      → get_or (apply_demand lib dd demand i p).state.section_setpoint_states i 0
        ≡ wanted_state demand i (get_or p.state.section_setpoint_states i 0)
  unfolding apply_demand get_section_setpoint_state set_section_setpoint_state wanted_state
  apply_demand_self demand i p inside sized = ground (
    arith,
    get_or-set_self p.state.section_setpoint_states i 0 0,
    get_or-set_self p.state.section_setpoint_states i 1 0,
  )

  apply_demand_other :
      (demand : List Bool) (i j : ℕ) (p : Progress lib dd)
      → i ≢ j
      → get_or (apply_demand lib dd demand i p).state.section_setpoint_states j 0
        ≡ get_or p.state.section_setpoint_states j 0
  unfolding apply_demand set_section_setpoint_state
  apply_demand_other demand i j p apart = ground (
    arith,
    get_or-set_ne p.state.section_setpoint_states i j 0 0 apart,
    get_or-set_ne p.state.section_setpoint_states i j 1 0 apart,
  )

  apply_demand_sized :
      (demand : List Bool) (i : ℕ) (p : Progress lib dd)
      → ((apply_demand lib dd demand i p).state.number_of_sections ≡ p.state.number_of_sections)
        × (length (apply_demand lib dd demand i p).state.section_setpoint_states
            ≡ length p.state.section_setpoint_states)
  unfolding apply_demand set_section_setpoint_state
  apply_demand_sized demand i p = ground (
    arith,
    length-set p.state.section_setpoint_states i 0,
    length-set p.state.section_setpoint_states i 1,
  )

  abbrev round : ℕ → List Bool → ℕ → Progress lib dd → Progress lib dd
  round client demand i p = apply_demand lib dd demand i (send_previous lib dd client i p)

  round_number :
      (client : ℕ) (demand : List Bool) (i : ℕ) (p : Progress lib dd)
      → ((round client demand i p).state.number_of_sections ≡ p.state.number_of_sections)
        × (length (round client demand i p).state.section_setpoint_states
            ≡ length p.state.section_setpoint_states)
  round_number client demand i p =
      let same = send_previous-SameSetpoints client i p in
      let sized = apply_demand_sized demand i (send_previous lib dd client i p) in
      (sized.0 ∙ same.1, sized.1 ∙ ap length same.0)

  round_self :
      (client : ℕ) (demand : List Bool) (i : ℕ) (p : Progress lib dd)
      → i < p.state.number_of_sections
      → length p.state.section_setpoint_states ≡ p.state.number_of_sections
      → get_or (round client demand i p).state.section_setpoint_states i 0
        ≡ wanted_state demand i (get_or p.state.section_setpoint_states i 0)
  round_self client demand i p inside sized =
      let same = send_previous-SameSetpoints client i p in
      apply_demand_self demand i (send_previous lib dd client i p) (omega (arith, same.1))
        (ap length same.0 ∙ sized ∙ sym same.1)
      ∙ ap (λ xs. wanted_state demand i (get_or xs i 0)) same.0

  round_other :
      (client : ℕ) (demand : List Bool) (i j : ℕ) (p : Progress lib dd)
      → i ≢ j
      → get_or (round client demand i p).state.section_setpoint_states j 0
        ≡ get_or p.state.section_setpoint_states j 0
  round_other client demand i j p apart =
      apply_demand_other demand i j (send_previous lib dd client i p) apart
      ∙ ap (λ xs. get_or xs j 0) (send_previous-SameSetpoints client i p).0

  update_sections_number :
      (client : ℕ) (demand : List Bool) (rounds i : ℕ) (p : Progress lib dd)
      → (update_sections lib dd client demand rounds i p).state.number_of_sections
        ≡ p.state.number_of_sections
  unfolding update_sections
  update_sections_number client demand zero i p = refl
  update_sections_number client demand (suc rounds) i p =
      update_sections_number client demand rounds (i + 1) (round client demand i p)
      ∙ (round_number client demand i p).0

  update_sections_before :
      (client : ℕ) (demand : List Bool) (rounds i j : ℕ) (p : Progress lib dd)
      → j < i
      → get_or (update_sections lib dd client demand rounds i p).state.section_setpoint_states j 0
        ≡ get_or p.state.section_setpoint_states j 0
  unfolding update_sections
  update_sections_before client demand zero i j p h = refl
  update_sections_before client demand (suc rounds) i j p h =
      update_sections_before client demand rounds (i + 1) j (round client demand i p) (omega arith)
      ∙ round_other client demand i j p (omega arith)

  update_sections_self :
      (client : ℕ) (demand : List Bool) (rounds i j : ℕ) (p : Progress lib dd)
      → i ≤ j
      → j < i + rounds
      → i + rounds ≤ p.state.number_of_sections
      → length p.state.section_setpoint_states ≡ p.state.number_of_sections
      → get_or (update_sections lib dd client demand rounds i p).state.section_setpoint_states j 0
        ≡ wanted_state demand j (get_or p.state.section_setpoint_states j 0)
  unfolding update_sections
  update_sections_self client demand zero i j p low high fits sized = absurd (omega arith)
  update_sections_self client demand (suc rounds) i j p low high fits sized =
      let p' = round client demand i p in
      let number = round_number client demand i p in
      elim (ℕ_discrete i j) [
        | yes now ↦
            update_sections_before client demand rounds (i + 1) j p' (omega arith)
            ∙ subst
                (λ k.
                  get_or p'.state.section_setpoint_states k 0
                  ≡ wanted_state demand k (get_or p.state.section_setpoint_states k 0))
                now (round_self client demand i p (omega arith) sized)
        | no later ↦
            update_sections_self client demand rounds (i + 1) j p' (omega arith) (omega arith)
              (omega (arith, number.0)) (number.1 ∙ sized ∙ sym number.0)
            ∙ ap (wanted_state demand j) (round_other client demand i j p later)
      ]

  pub update_client_sections_automatic :
      (demand : List Bool) (client : ℕ) (s : ClientState Pool)
      → s.section_control_enabled ≡ true
      → 0 < s.number_of_sections
      → let start : Progress lib dd = record { state = s; requires_update = false; sent = [] } in
        let p =
          send_last lib dd client s.number_of_sections
            (update_sections lib dd client demand s.number_of_sections 0 start) in
        update_client_sections lib dd demand client s ≡ (p.state, p.sent)
  unfolding update_client_sections
  update_client_sections_automatic demand client s enabled some_sections =
      if_true s.section_control_enabled _ _ enabled
      ∙ if_false (s.number_of_sections == 0) _ _ (ground arith)

  pub update_client_sections_manual :
      (demand : List Bool) (client : ℕ) (s : ClientState Pool)
      → s.section_control_enabled ≡ false
      → update_client_sections lib dd demand client s ≡ (s, [])
  unfolding update_client_sections
  update_client_sections_manual demand client s manual =
      if_false s.section_control_enabled _ _ manual

  pub update_client_sections_empty :
      (demand : List Bool) (client : ℕ) (s : ClientState Pool)
      → s.number_of_sections ≡ 0
      → update_client_sections lib dd demand client s ≡ (s, [])
  unfolding update_client_sections
  update_client_sections_empty demand client s empty = elim (Bool-cases s.section_control_enabled) [
    | inl enabled ↦
        if_true s.section_control_enabled _ _ enabled
        ∙ if_true (s.number_of_sections == 0) _ _ (ground arith)
    | inr manual ↦ if_false s.section_control_enabled _ _ manual
  ]

  pub update_client_sections_number :
      (demand : List Bool) (client : ℕ) (s : ClientState Pool)
      → (update_client_sections lib dd demand client s).0.number_of_sections ≡ s.number_of_sections
  unfolding update_client_sections
  update_client_sections_number demand client s =
      let n = s.number_of_sections in
      let start : Progress lib dd = record { state = s; requires_update = false; sent = [] } in
      let p = update_sections lib dd client demand n 0 start in
      let q = send_last lib dd client n p in
      let number : q.state.number_of_sections ≡ n =
        (send_last-SameSetpoints client n p).1 ∙ update_sections_number client demand n 0 start in
      if_both (λ (r : ClientState Pool × List Message). r.0.number_of_sections ≡ n)
        s.section_control_enabled (if n == 0 then (s, []) else (q.state, q.sent)) (s, [])
        (if_both (λ (r : ClientState Pool × List Message). r.0.number_of_sections ≡ n) (n == 0)
          (s, []) (q.state, q.sent) refl number)
        refl

  -- For a client in automatic with a valid state, the setpoint of every section is afterwards what the
  -- demand wants: on or off as the demand says, and as before past its end.
  pub update_client_sections_setpoints :
      (demand : List Bool) (client : ℕ) (s : ClientState Pool) (j : ℕ)
      → IsValid s
      → s.section_control_enabled ≡ true
      → j < s.number_of_sections
      → get_or (update_client_sections lib dd demand client s).0.section_setpoint_states j 0
        ≡ wanted_state demand j (get_or s.section_setpoint_states j 0)
  update_client_sections_setpoints demand client s j v enabled inside =
      let n = s.number_of_sections in
      let start : Progress lib dd = record { state = s; requires_update = false; sent = [] } in
      let p = update_sections lib dd client demand n 0 start in
      let self =
        update_sections_self client demand n 0 j start (omega arith) (omega arith) (omega arith)
          v.setpoint_length in
      let last = ap (λ xs. get_or xs j 0) (send_last-SameSetpoints client n p).0 in
      let whole = update_client_sections_automatic demand client s enabled (omega arith) in
      ap (λ r. get_or r.0.section_setpoint_states j 0) whole ∙ last ∙ self
