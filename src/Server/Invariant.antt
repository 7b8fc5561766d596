-- ===== src/Server/Invariant.antt =====
-- Every client that the server holds has a valid state, after any sequence of calls.
pub mod Reports
pub mod Sending
pub mod Activating
pub mod Calls
use aog_task_controller.Prelude.{
  ℕ, zero, suc, ◌+◌, ◌*◌, ◌/◌, ◌%◌, ◌^◌, ◌≤◌, ◌<◌, ◌≡◌, refl, ◌⊎◌, inl, inr, Bool, true, false, not,
  List, [], ◌∷◌, ◌&&◌, ◌||◌, Option, none, some, arith, ltb, ◌==◌, if◌then◌else◌, Bool-cases,
  Option-cases, length, u8,
}
use aog_task_controller.Prelude.Map.{Map, find, assign, erase, or_default}
use aog_task_controller.Isobus.{
  DataDictionary, PoolLibrary, Object, device, device_element, process_data, other_object,
  ProcessData, Element, objects,
}
use aog_task_controller.Client.{
  ClientState, new_state, set_number_of_sections, set_section_setpoint_state,
  set_section_actual_state, set_element_number_for_section, set_element_number_for_ddi,
  set_element_work_state, try_get_section_for_element, mark_measurement_commands_sent,
  set_section_control_enabled, set_setpoint_work_state, set_uses_per_element_control,
  set_per_element_setpoint_ddi, build_element_hierarchy,
}
use aog_task_controller.Client.Invariant.{
  IsValid, new_state-IsValid, set_number_of_sections-IsValid, set_section_setpoint_state-IsValid,
  set_section_actual_state-IsValid, set_element_number_for_section-IsValid,
}
use aog_task_controller.Server.{Server, Message, client_at, set_client, for_clients}

abbrev pub AllClients : {P : Type 0} → (ClientState P → Type 0) → Map (ClientState P) → Type 0
AllClients Q [] = Unit {0}
AllClients Q ((k, s) ∷ m) = Q s × AllClients Q m

module _ {P : Type 0} (Q : ClientState P → Type 0) where
  pub AllClients-assign :
      (k : ℕ) (s : ClientState P) (m : Map (ClientState P))
      → Q s
      → AllClients Q m
      → AllClients Q (assign k s m)
  unfolding assign
  AllClients-assign k s [] q all = (q, tt)
  AllClients-assign k s ((j, t) ∷ m) q all = elim (Bool-cases (j == k)) [
    | inl same ↦ rw same (q, all.1)
    | inr apart ↦ elim (Bool-cases (ltb k j)) [
      | inl before ↦ rw (apart, before) (q, all)
      | inr later ↦ rw (apart, later) (all.0, AllClients-assign k s m q all.1)
    ]
  ]

  pub AllClients-erase :
      (k : ℕ) (m : Map (ClientState P)) → AllClients Q m → AllClients Q (erase k m)
  unfolding erase
  AllClients-erase k [] all = tt
  AllClients-erase k ((j, t) ∷ m) all = elim (Bool-cases (j == k)) [
    | inl same ↦ rw same (AllClients-erase k m all.1)
    | inr apart ↦ rw apart (all.0, AllClients-erase k m all.1)
  ]

  pub AllClients-find :
      (k : ℕ) (m : Map (ClientState P)) (s : ClientState P)
      → Q s
      → AllClients Q m
      → Q (or_default (find k m) s)
  unfolding find
  AllClients-find k [] s q all = q
  AllClients-find k ((j, t) ∷ m) s q all = elim (Bool-cases (j == k)) [
    | inl same ↦ rw same all.0
    | inr apart ↦ rw apart (AllClients-find k m s q all.1)
  ]

  pub AllClients-for_clients :
      (body : ℕ → ClientState P → ClientState P × List Message)
      → ((k : ℕ) (s : ClientState P) → Q s → Q (body k s).0)
      → (m : Map (ClientState P)) → AllClients Q m
      → AllClients Q (for_clients body m).0
  unfolding for_clients
  AllClients-for_clients body keep [] all = tt
  AllClients-for_clients body keep ((k, s) ∷ m) all =
      (keep k s all.0, AllClients-for_clients body keep m all.1)

abbrev pub IsValidServer : {P : Type 0} → Server P → Type 0
IsValidServer server = AllClients IsValid server.clients
