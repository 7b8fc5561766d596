-- ===== src/Server/Invariant/Sending.antt =====
-- The loops that send to the clients keep each client's state valid.
use aog_task_controller.Prelude.{
  ℕ, zero, suc, ◌+◌, ◌-◌, ◌/◌, ◌%◌, ◌<◌, ◌≡◌, Bool, true, false, not, List, [], ◌∷◌, Option, none,
  some, arith, ltb, ◌==◌, if◌then◌else◌, if_both, u8, sym, subst, ◌⊎◌, inl, inr, ◌&&◌, bool_eq,
  length, get_or,
}
use aog_task_controller.Isobus.{
  DataDictionary, PoolLibrary, Object, device, device_element, process_data, other_object,
  ProcessData, Element, objects,
}
use aog_task_controller.Client.{
  ClientState, sections_per_message, set_section_setpoint_state, set_setpoint_work_state,
  set_section_control_enabled, set_element_number_for_ddi, mark_measurement_commands_sent,
  is_any_section_setpoint_on, get_section_setpoint_state,
}
use aog_task_controller.Client.Invariant.{IsValid, set_section_setpoint_state-IsValid}
use aog_task_controller.Server.{Server, Message}
use aog_task_controller.Server.Setpoints.{
  send_setpoint_work_state, send_section_setpoint_states, Progress, send_block, send_previous,
  apply_demand, update_sections, send_last, update_client_sections, update_section_states,
  enable_client, update_section_control_enabled, send_client_quality, send_gnss_quality,
}
use aog_task_controller.Server.Measurement.{
  Sending, subscribe_actual, subscribe_control, for_mentions, for_owners, for_process_data,
  map_owner, map_gnss_quality, request_client, request_measurement_commands, find_owner,
  is_actual_state, is_control_state,
}
use aog_task_controller.Server.Invariant.{AllClients-for_clients, IsValidServer}

module _ {P : Type 0} (dd : DataDictionary) where
  enable_client-IsValid :
      (enabled : Bool) (client : ℕ) (s : ClientState P)
      → IsValid s
      → IsValid (enable_client dd enabled client s).0
  unfolding enable_client set_section_control_enabled
  enable_client-IsValid enabled client s v =
      if_both IsValid (bool_eq s.section_control_enabled enabled) _ _ v v

  pub update_section_control_enabled-IsValidServer :
      (server : Server P) (enabled : Bool)
      → IsValidServer server
      → IsValidServer (update_section_control_enabled dd server enabled).0
  unfolding update_section_control_enabled
  update_section_control_enabled-IsValidServer server enabled =
      AllClients-for_clients IsValid (enable_client dd enabled) (enable_client-IsValid enabled)
        server.clients

  pub send_gnss_quality-IsValidServer :
      (server : Server P) (quality : ℕ)
      → IsValidServer server
      → IsValidServer (send_gnss_quality dd server quality).0
  unfolding send_gnss_quality send_client_quality
  send_gnss_quality-IsValidServer server quality =
      AllClients-for_clients IsValid (send_client_quality dd quality) (λ client s v. v)
        server.clients

  for_mentions-IsValid :
      (id : ℕ) (body : Sending P → Sending P)
      → ((acc : Sending P) → IsValid acc.0 → IsValid (body acc).0)
      → (ids : List ℕ) (acc : Sending P) → IsValid acc.0
      → IsValid (for_mentions id body ids acc).0
  unfolding for_mentions
  for_mentions-IsValid id body keep [] acc v = v
  for_mentions-IsValid id body keep (child ∷ rest) acc v =
      for_mentions-IsValid id body keep rest (if child == id then body acc else acc)
        (if_both (λ (a : Sending P). IsValid a.0) (child == id) (body acc) acc (keep acc v) v)

  for_owners-IsValid :
      (id : ℕ) (body : Element → Sending P → Sending P)
      → ((e : Element) (acc : Sending P) → IsValid acc.0 → IsValid (body e acc).0)
      → (xs : List Object) (acc : Sending P) → IsValid acc.0
      → IsValid (for_owners id body xs acc).0
  unfolding for_owners
  for_owners-IsValid id body keep [] acc v = v
  for_owners-IsValid id body keep (device_element e ∷ xs) acc v =
      for_owners-IsValid id body keep xs _
        (for_mentions-IsValid id (body e) (keep e) e.child_object_ids acc v)
  for_owners-IsValid id body keep (device l ∷ xs) acc v = for_owners-IsValid id body keep xs acc v
  for_owners-IsValid id body keep (process_data d ∷ xs) acc v =
      for_owners-IsValid id body keep xs acc v
  for_owners-IsValid id body keep (other_object ∷ xs) acc v =
      for_owners-IsValid id body keep xs acc v

  for_process_data-IsValid :
      (test : ℕ → Bool) (body : ProcessData → Element → Sending P → Sending P)
      → ((d : ProcessData) (e : Element) (acc : Sending P)
          → IsValid acc.0
          → IsValid (body d e acc).0)
      → (pool xs : List Object) (acc : Sending P) → IsValid acc.0
      → IsValid (for_process_data test body pool xs acc).0
  unfolding for_process_data
  for_process_data-IsValid test body keep pool [] acc v = v
  for_process_data-IsValid test body keep pool (process_data d ∷ xs) acc v =
      for_process_data-IsValid test body keep pool xs _ (
        if_both (λ (a : Sending P). IsValid a.0) (test d.ddi)
          (for_owners d.object_id (body d) pool acc) acc
          (for_owners-IsValid d.object_id (body d) (keep d) pool acc v) v)
  for_process_data-IsValid test body keep pool (device l ∷ xs) acc v =
      for_process_data-IsValid test body keep pool xs acc v
  for_process_data-IsValid test body keep pool (device_element e ∷ xs) acc v =
      for_process_data-IsValid test body keep pool xs acc v
  for_process_data-IsValid test body keep pool (other_object ∷ xs) acc v =
      for_process_data-IsValid test body keep pool xs acc v

  map_owner-IsValid :
      (ddi : ℕ) (o : Option ℕ) (s : ClientState P) → IsValid s → IsValid (map_owner ddi o s)
  unfolding map_owner set_element_number_for_ddi
  map_owner-IsValid ddi none s v = v
  map_owner-IsValid ddi (some e) s v = v

  map_gnss_quality-IsValid :
      (pool xs : List Object) (s : ClientState P)
      → IsValid s
      → IsValid (map_gnss_quality dd pool xs s)
  unfolding map_gnss_quality
  map_gnss_quality-IsValid pool [] s v = v
  map_gnss_quality-IsValid pool (process_data d ∷ xs) s v = map_gnss_quality-IsValid pool xs _ (
      if_both IsValid (d.ddi == dd.gnss_quality && d.settable)
        (map_owner dd.gnss_quality (find_owner d.object_id pool) s) s
        (map_owner-IsValid dd.gnss_quality (find_owner d.object_id pool) s v) v)
  map_gnss_quality-IsValid pool (device l ∷ xs) s v = map_gnss_quality-IsValid pool xs s v
  map_gnss_quality-IsValid pool (device_element e ∷ xs) s v = map_gnss_quality-IsValid pool xs s v
  map_gnss_quality-IsValid pool (other_object ∷ xs) s v = map_gnss_quality-IsValid pool xs s v

module _ (lib : PoolLibrary) (dd : DataDictionary) where
  open lib use {Pool}

  request_client-IsValid :
      (client : ℕ) (s : ClientState Pool) → IsValid s → IsValid (request_client lib dd client s).0
  unfolding request_client mark_measurement_commands_sent subscribe_actual subscribe_control
      set_element_number_for_ddi
  request_client-IsValid client s v =
      let all = objects lib s.pool in
      let acc = for_process_data (is_actual_state dd) (subscribe_actual client) all all (s, []) in
      let acc' = for_process_data (is_control_state dd) (subscribe_control client) all all acc in
      let valid : IsValid acc.0 =
        for_process_data-IsValid dd (is_actual_state dd) (subscribe_actual client) (λ d e a h. h)
          all all (s, []) v in
      let valid' : IsValid acc'.0 =
        for_process_data-IsValid dd (is_control_state dd) (subscribe_control client) (λ d e a h. h)
          all all acc valid in
      if_both (λ (r : ClientState Pool × List Message). IsValid r.0)
        (not s.measurement_commands_sent && ltb 0 s.number_of_sections)
        (mark_measurement_commands_sent (map_gnss_quality dd all all acc'.0), acc'.1) (s, [])
        (map_gnss_quality-IsValid dd all all acc'.0 valid') v

  pub request_measurement_commands-IsValidServer :
      (server : Server Pool)
      → IsValidServer server
      → IsValidServer (request_measurement_commands lib dd server).0
  unfolding request_measurement_commands
  request_measurement_commands-IsValidServer server =
      AllClients-for_clients IsValid (request_client lib dd) request_client-IsValid server.clients

  -- Of the state only the overall setpoint work state may change.
  pub send_section_setpoint_states_state :
      (client : ℕ) (s : ClientState Pool) (ddi_offset : ℕ)
      → ((send_section_setpoint_states lib dd client s ddi_offset).0 ≡ s)
        ⊎ ((send_section_setpoint_states lib dd client s ddi_offset).0
            ≡ set_setpoint_work_state s (is_any_section_setpoint_on s))
  unfolding send_section_setpoint_states send_setpoint_work_state
  send_section_setpoint_states_state client s ddi_offset = ground arith

  pub send_section_setpoint_states-IsValid :
      (client : ℕ) (s : ClientState Pool) (ddi_offset : ℕ)
      → IsValid s
      → IsValid (send_section_setpoint_states lib dd client s ddi_offset).0
  unfolding set_setpoint_work_state
  send_section_setpoint_states-IsValid client s ddi_offset v =
      elim (send_section_setpoint_states_state client s ddi_offset) [
        | inl same ↦ subst IsValid (sym same) v
        | inr changed ↦ subst IsValid (sym changed) v
      ]

  send_previous-IsValid :
      (client i : ℕ) (p : Progress lib dd)
      → IsValid p.state
      → IsValid (send_previous lib dd client i p).state
  unfolding send_previous send_block
  send_previous-IsValid client i p v =
      if_both (λ (r : Progress lib dd). IsValid r.state)
        (i % sections_per_message == 0 && p.requires_update) _ _
        (send_section_setpoint_states-IsValid client p.state (u8 (i / sections_per_message - 1)) v)
        v

  apply_demand-IsValid :
      (demand : List Bool) (i : ℕ) (p : Progress lib dd)
      → IsValid p.state
      → IsValid (apply_demand lib dd demand i p).state
  unfolding apply_demand
  apply_demand-IsValid demand i p v =
      if_both (λ (r : Progress lib dd). IsValid r.state)
        (ltb i (length demand)
          && not (bool_eq (get_or demand i false) (get_section_setpoint_state p.state i == 1)))
        (record p {
          state = set_section_setpoint_state p.state i (if get_or demand i false then 1 else 0);
          requires_update = true;
        })
        p
        (set_section_setpoint_state-IsValid p.state i (if get_or demand i false then 1 else 0)
          (if_both (λ (n : ℕ). n < 4) (get_or demand i false) 1 0 (omega arith) (omega arith)) v)
        v

  update_sections-IsValid :
      (client : ℕ) (demand : List Bool) (rounds i : ℕ) (p : Progress lib dd)
      → IsValid p.state
      → IsValid (update_sections lib dd client demand rounds i p).state
  unfolding update_sections
  update_sections-IsValid client demand zero i p v = v
  update_sections-IsValid client demand (suc rounds) i p v =
      update_sections-IsValid client demand rounds (i + 1) _ (
        apply_demand-IsValid demand i (send_previous lib dd client i p)
          (send_previous-IsValid client i p v))

  send_last-IsValid :
      (client n : ℕ) (p : Progress lib dd)
      → IsValid p.state
      → IsValid (send_last lib dd client n p).state
  unfolding send_last send_block
  send_last-IsValid client n p v =
      if_both (λ (r : Progress lib dd). IsValid r.state) p.requires_update
        (send_block lib dd client ((n - 1) / sections_per_message) p) p
        (send_section_setpoint_states-IsValid client p.state ((n - 1) / sections_per_message) v) v

  pub update_client_sections-IsValid :
      (demand : List Bool) (client : ℕ) (s : ClientState Pool)
      → IsValid s
      → IsValid (update_client_sections lib dd demand client s).0
  unfolding update_client_sections
  update_client_sections-IsValid demand client s v =
      let n = s.number_of_sections in
      let start : Progress lib dd = record { state = s; requires_update = false; sent = [] } in
      let p = send_last lib dd client n (update_sections lib dd client demand n 0 start) in
      let valid : IsValid p.state =
        send_last-IsValid client n _ (update_sections-IsValid client demand n 0 start v) in
      if_both (λ (r : ClientState Pool × List Message). IsValid r.0) s.section_control_enabled
        (if n == 0 then (s, []) else (p.state, p.sent)) (s, [])
        (if_both (λ (r : ClientState Pool × List Message). IsValid r.0) (n == 0) (s, [])
          (p.state, p.sent) v valid)
        v

  pub update_section_states-IsValidServer :
      (server : Server Pool) (demand : List Bool)
      → IsValidServer server
      → IsValidServer (update_section_states lib dd server demand).0
  unfolding update_section_states
  update_section_states-IsValidServer server demand =
      AllClients-for_clients IsValid (update_client_sections lib dd demand)
        (update_client_sections-IsValid demand) server.clients
