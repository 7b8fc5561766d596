-- ===== src/App/Circuit.antt =====
-- The whole circuit: the demand of AOG, the setpoints of a client, its report, and the heartbeat that
-- goes back to AOG.
use aog_task_controller.Prelude.{
  ℕ, ◌+◌, ◌*◌, ◌≤◌, ◌<◌, ◌≡◌, ap, ◌∙◌, sym, subst, true, false, List, ◌∷◌, none, some, arith, ◌==◌,
  length, get_or, to_nat,
}
use aog_task_controller.Prelude.Map.{find}
use aog_task_controller.Isobus.{DataDictionary, PoolLibrary, IsStandard}
use aog_task_controller.Hierarchy.Chain.{Ancestor}
use aog_task_controller.Client.{
  ClientState, get_element_number_for_section, get_section_setpoint_state,
}
use aog_task_controller.Client.Invariant.{IsValid}
use aog_task_controller.Client.ParentOff.{IsOff, get_section_actual_state_reported}
use aog_task_controller.Server.Setpoints.{condensed_value, update_client_sections}
use aog_task_controller.Server.Setpoints.Demand.{update_client_sections_number}
use aog_task_controller.Server.Invariant.Sending.{update_client_sections-IsValid}
use aog_task_controller.Server.ValueCommand.{value_command}
use aog_task_controller.Server.ValueCommand.Condensed.{value_command_condensed}
use aog_task_controller.Server.Setpoints.Packing.{condensed_value_read}
use aog_task_controller.Udp.{Packet}
use aog_task_controller.App.{App, Moment, bit, section_states, handle_packet}
use aog_task_controller.App.Demand.{handle_packet-demand, handle_packet-update_client_sections}
use aog_task_controller.App.Heartbeat.{heartbeat, is_working}
use aog_task_controller.App.Heartbeat.Packing.{heartbeat_states}

some-injective : {A : Type 0} (a b : A) → some a ≡ some b → a ≡ b
some-injective a b e = ap (λ o. elim o [ none ↦ a | some x ↦ x ]) e

-- A report of the packed setpoints, read back by the heartbeat.
reported_working :
    {P : Type 0} (dd : DataDictionary) (k element i : ℕ) (s s' : ClientState P)
    → IsStandard dd
    → k < 16
    → i < 16
    → IsValid s
    → 16 * k + i < s.number_of_sections
    → value_command dd (dd.actual_condensed_work_state k) element (condensed_value s k) s ≡ some s'
    → s'.uses_per_element_control ≡ false
    → ((a : ℕ)
        → Ancestor s'.element_parents (get_element_number_for_section s' (16 * k + i)) a
        → ¬ IsOff s' a)
    → (s'.number_of_sections ≡ s.number_of_sections)
      × (is_working s' (16 * k + i) ≡ (get_or s.section_setpoint_states (16 * k + i) 0 == 1))
unfolding is_working get_section_setpoint_state
reported_working {P = P} dd k element i s s' standard small low v inside reported condensed
      none-IsOff =
    let (t, taken, number, states, rest) =
      value_command_condensed dd k element (condensed_value s k) s standard small v in
    let n = 16 * k + i in
    let same : t ≡ s' = some-injective t s' (sym taken ∙ reported) in
    let number' : s'.number_of_sections ≡ s.number_of_sections =
      ap (λ (u : ClientState P). u.number_of_sections) (sym same) ∙ number in
    let inside' : n < s'.number_of_sections = omega (arith, number', inside) in
    let stored : get_or s'.section_actual_states n 0 ≡ get_section_setpoint_state s n =
      ap (λ (u : ClientState P). get_or u.section_actual_states n 0) (sym same)
      ∙ (states i low inside).0
      ∙ condensed_value_read s v k i small low in
    let setpoint : get_section_setpoint_state s n ≡ get_or s.section_setpoint_states n 0 =
      ground (arith, inside) in
    (
      number',
      ap (λ x. x == 1)
          (get_section_actual_state_reported s' n inside' condensed none-IsOff ∙ stored ∙ setpoint),
    )

module _ (lib : PoolLibrary) (dd : DataDictionary) where
  open lib use {Pool}

  -- When a packet with the demand of AOG has arrived, of 8 bytes or more, and then a client in automatic
  -- with a valid state reports the very setpoints that the server packs for it, then the heartbeat of
  -- this client carries for each reported section below 64 the bit of the demand: if the client is not
  -- under per-element control and no element above the section was reported as off.
  pub handle_packet-heartbeat :
      (now : Moment) (p : Packet) (app : App Pool) (partner : ℕ) (s s' s'' : ClientState Pool)
      (element k j i : ℕ)
      → IsStandard dd
      → p.src ≡ 0x7F
      → p.pgn ≡ 0xE5
      → 8 ≤ length p.payload
      → find partner app.server.clients ≡ some s
      → IsValid s
      → s.section_control_enabled ≡ true
      → j < 2
      → i < 8
      → 16 * k + (8 * j + i) < s.number_of_sections
      → 16 * k + (8 * j + i) < 64
      → find partner (handle_packet lib dd now p app).0.server.clients ≡ some s'
      → value_command dd (dd.actual_condensed_work_state k) element (condensed_value s' k) s'
        ≡ some s''
      → s''.uses_per_element_control ≡ false
      → ((a : ℕ)
          → Ancestor s''.element_parents
              (get_element_number_for_section s'' (16 * k + (8 * j + i)))
              a
          → ¬ IsOff s'' a)
      → (bytes : List ℕ) × (heartbeat 33 s''
          ≡ some (to_nat s''.section_control_enabled ∷ s''.number_of_sections ∷ bytes))
        × (bit (get_or bytes (2 * k + j) 0) i ≡ bit (get_or p.payload (2 * k + j) 0) i)
  handle_packet-heartbeat now p app partner s s' s'' element k j i standard src pgn long known v
        enabled jl il inside covered demanded reported condensed none-IsOff =
      let n = 16 * k + (8 * j + i) in
      let m = 8 * (2 * k + j) + i in
      let place : n ≡ m = omega arith in
      let t = (update_client_sections lib dd (section_states p.payload) partner s).0 in
      let same : t ≡ s' = some-injective t s' (
        sym (handle_packet-update_client_sections lib dd now p app partner s src pgn long known)
        ∙ demanded) in
      let valid : IsValid s' =
        subst (λ (u : ClientState Pool). IsValid u) same
          (update_client_sections-IsValid lib dd (section_states p.payload) partner s v) in
      let number : s'.number_of_sections ≡ s.number_of_sections =
        ap (λ (u : ClientState Pool). u.number_of_sections) (sym same)
        ∙ update_client_sections_number lib dd (section_states p.payload) partner s in
      let (u, found, wanted) =
        handle_packet-demand lib dd now p app partner s (2 * k + j) i src pgn long known v enabled
          (omega (arith, covered)) il (omega (arith, inside)) in
      let wanted' : (get_or s'.section_setpoint_states m 0 == 1)
          ≡ bit (get_or p.payload (2 * k + j) 0) i =
        subst
          (λ (w : ClientState Pool).
            (get_or w.section_setpoint_states m 0 == 1) ≡ bit (get_or p.payload (2 * k + j) 0) i)
          (some-injective u s' (sym found ∙ demanded)) wanted in
      let (number', works) =
        reported_working dd k element (8 * j + i) s' s'' standard (omega (arith, covered))
          (omega (arith, il, jl)) valid (omega (arith, inside, number)) reported condensed
          none-IsOff in
      let (bytes, sent, count, bits) =
        heartbeat_states s'' (omega (arith, number', valid.count_fits)) 33 (omega arith) in
      (
        bytes,
        sent,
        bits (2 * k + j) i il (omega (arith, inside, number, number'))
            ∙ ap (is_working s'') (sym place)
            ∙ works
            ∙ ap (λ q. get_or s'.section_setpoint_states q 0 == 1) place
            ∙ wanted',
      )
