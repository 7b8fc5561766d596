-- ===== src/Server/Measurement.antt =====
-- `MyTCServer::request_measurement_commands` and `find_owning_element_number`: once for each client
-- with sections, the server looks up which element owns which DDI, and subscribes to it.
use aog_task_controller.Prelude.{
  ℕ, Bool, not, ◌&&◌, ◌||◌, List, [], ◌∷◌, ◌++◌, Option, none, some, ltb, leb, ◌==◌, if◌then◌else◌,
  any,
}
use aog_task_controller.Isobus.{
  DataDictionary, PoolLibrary, Object, device_element, process_data, Element, ProcessData, objects,
}
use aog_task_controller.Client.{
  ClientState, set_element_number_for_ddi, mark_measurement_commands_sent,
}
use aog_task_controller.Server.{Server, Message, change_threshold, time_interval, for_clients}

-- The first device element that lists the object as a child.
unfoldable pub find_owner : ℕ → List Object → Option ℕ
find_owner object_id [] = none
find_owner object_id (device_element e ∷ rest) =
    if any (λ child. child == object_id) e.child_object_ids
    then some e.element_number
    else find_owner object_id rest
find_owner object_id (_ ∷ rest) = find_owner object_id rest

-- `first` and `last` are the entries for the sections 1 to 16 and 241 to 256.
abbrev pub in_block : (ℕ → ℕ) → ℕ → Bool
in_block entry ddi = leb (entry 0) ddi && leb ddi (entry 15)

module _ (dd : DataDictionary) where
  unfoldable pub is_actual_state : ℕ → Bool
  is_actual_state ddi =
      ddi == dd.actual_work_state
      || in_block dd.actual_condensed_work_state ddi
      || in_block dd.condensed_section_override_state ddi

  unfoldable pub is_control_state : ℕ → Bool
  is_control_state ddi =
      ddi == dd.section_control_state
      || ddi == dd.setpoint_work_state
      || in_block dd.setpoint_condensed_work_state ddi

-- A state, and what has been sent so far.
abbrev pub Sending : Type 0 → Type 0
Sending P = ClientState P × List Message

module _ {P : Type 0} where
  unfoldable pub subscribe_actual : ℕ → ProcessData → Element → Sending P → Sending P
  subscribe_actual client d e (s, sent) = (
    set_element_number_for_ddi s d.ddi e.element_number,
    sent
        ++ (if d.on_change then change_threshold client d.ddi e.element_number 1 ∷ [] else [])
        ++ (if d.time_interval then time_interval client d.ddi e.element_number 1000 ∷ [] else []),
  )

  unfoldable pub subscribe_control : ℕ → ProcessData → Element → Sending P → Sending P
  subscribe_control client d e (s, sent) = (
    set_element_number_for_ddi s d.ddi e.element_number,
    sent ++ (if d.on_change then change_threshold client d.ddi e.element_number 1 ∷ [] else []),
  )

  -- The innermost loop: once for each mention of the object among the children.
  unfoldable pub for_mentions : ℕ → (Sending P → Sending P) → List ℕ → Sending P → Sending P
  for_mentions object_id body [] acc = acc
  for_mentions object_id body (child ∷ rest) acc =
      for_mentions object_id body rest (if child == object_id then body acc else acc)

  unfoldable pub for_owners :
      ℕ → (Element → Sending P → Sending P) → List Object → Sending P → Sending P
  unfolding for_mentions
  for_owners object_id body [] acc = acc
  for_owners object_id body (device_element e ∷ rest) acc =
      for_owners object_id body rest (for_mentions object_id (body e) e.child_object_ids acc)
  for_owners object_id body (_ ∷ rest) acc = for_owners object_id body rest acc

  -- A loop over the process data that a test selects; `pool` is what the loop inside goes over.
  unfoldable pub for_process_data :
      (ℕ → Bool)
      → (ProcessData → Element → Sending P → Sending P)
      → List Object
      → List Object
      → Sending P
      → Sending P
  unfolding for_owners
  for_process_data test body pool [] acc = acc
  for_process_data test body pool (process_data d ∷ rest) acc =
      for_process_data test body pool rest
        (if test d.ddi then for_owners d.object_id (body d) pool acc else acc)
  for_process_data test body pool (_ ∷ rest) acc = for_process_data test body pool rest acc

  unfoldable pub map_owner : ℕ → Option ℕ → ClientState P → ClientState P
  map_owner ddi none s = s
  map_owner ddi (some element_number) s = set_element_number_for_ddi s ddi element_number

  unfoldable pub map_gnss_quality :
      DataDictionary → List Object → List Object → ClientState P → ClientState P
  unfolding find_owner map_owner
  map_gnss_quality dd pool [] s = s
  map_gnss_quality dd pool (process_data d ∷ rest) s = map_gnss_quality dd pool rest (
      if d.ddi == dd.gnss_quality && d.settable
      then map_owner dd.gnss_quality (find_owner d.object_id pool) s
      else s)
  map_gnss_quality dd pool (_ ∷ rest) s = map_gnss_quality dd pool rest s

module _ (lib : PoolLibrary) (dd : DataDictionary) where
  open lib use {Pool}

  unfoldable pub request_client : ℕ → ClientState Pool → ClientState Pool × List Message
  unfolding for_process_data map_gnss_quality subscribe_actual subscribe_control
  request_client client s =
      let all = objects lib s.pool in
      let acc = for_process_data (is_actual_state dd) (subscribe_actual client) all all (s, []) in
      let (s', sent) =
        for_process_data (is_control_state dd) (subscribe_control client) all all acc in
      if not s.measurement_commands_sent && ltb 0 s.number_of_sections
      then (mark_measurement_commands_sent (map_gnss_quality dd all all s'), sent)
      else (s, [])

  unfoldable pub request_measurement_commands : Server Pool → Server Pool × List Message
  unfolding request_client
  request_measurement_commands server =
      let (clients, sent) = for_clients request_client server.clients in
      (record server { clients = clients }, sent)
