-- ===== src/Server/Invariant/Reports.antt =====
-- `on_value_command` keeps the state of the client valid.
use aog_task_controller.Prelude.{
  ℕ, zero, suc, ◌+◌, ◌*◌, ◌/◌, ◌%◌, ◌^◌, Bool, true, false, Option, none, some, arith, ◌==◌,
  if_both, u8,
}
use aog_task_controller.Isobus.{DataDictionary}
use aog_task_controller.Client.{
  ClientState, set_element_work_state, set_section_control_enabled, try_get_section_for_element,
  new_state,
}
use aog_task_controller.Client.Invariant.{
  IsValid, new_state-IsValid, set_section_actual_state-IsValid,
  set_element_number_for_section-IsValid,
}
use aog_task_controller.Server.{Server, client_at, set_client}
use aog_task_controller.Server.ValueCommand.{
  report_section, report_sections, report_condensed, report_section_of_element, report_work_state,
  value_command, store_client, on_value_command, is_actual_condensed,
}
use aog_task_controller.Server.Invariant.{AllClients-assign, AllClients-find, IsValidServer}

module _ {P : Type 0} where
  report_section-IsValid :
      (offset element value i : ℕ) (s : ClientState P)
      → IsValid s
      → IsValid (report_section offset element value i s)
  unfolding report_section
  report_section-IsValid offset element value i s v =
      set_element_number_for_section-IsValid _ (u8 (i + offset)) element (
        set_section_actual_state-IsValid s (u8 (i + offset)) (value / 2 ^ (2 * i) % 4) (omega arith)
          v)

  report_sections-IsValid :
      (offset element value rounds i : ℕ) (s : ClientState P)
      → IsValid s
      → IsValid (report_sections offset element value rounds i s)
  unfolding report_sections
  report_sections-IsValid offset element value zero i s v = v
  report_sections-IsValid offset element value (suc rounds) i s v =
      report_sections-IsValid offset element value rounds (i + 1)
        (report_section offset element value i s)
        (report_section-IsValid offset element value i s v)

  report_section_of_element-IsValid :
      (section : Option ℕ) (working : Bool) (s : ClientState P)
      → IsValid s
      → IsValid (report_section_of_element section working s)
  unfolding report_section_of_element
  report_section_of_element-IsValid none working s v = v
  report_section_of_element-IsValid (some section) true s v =
      set_section_actual_state-IsValid s section 1 (omega arith) v
  report_section_of_element-IsValid (some section) false s v =
      set_section_actual_state-IsValid s section 0 (omega arith) v

  report_work_state-IsValid :
      (element value : ℕ) (s : ClientState P)
      → IsValid s
      → IsValid (report_work_state element value s)
  unfolding report_work_state set_element_work_state
  report_work_state-IsValid element value s v =
      if_both IsValid s.uses_per_element_control _ _
        (report_section_of_element-IsValid
          (try_get_section_for_element (set_element_work_state s element (value == 1)) element)
          (value == 1) (set_element_work_state s element (value == 1)) v)
        v

  -- The result, where a case of the `switch` is taken.
  abbrev IsValidIfAny : Option (ClientState P) → Type 0
  IsValidIfAny none = Unit {0}
  IsValidIfAny (some s) = IsValid s

  value_command-IsValid :
      (dd : DataDictionary) (ddi element value : ℕ) (s : ClientState P)
      → IsValid s
      → IsValidIfAny (value_command dd ddi element value s)
  unfolding value_command report_condensed set_section_control_enabled
  value_command-IsValid dd ddi element value s v =
      if_both IsValidIfAny (is_actual_condensed dd ddi) _ _
        (report_sections-IsValid _ element value 16 0 s v)
        (if_both IsValidIfAny (ddi == dd.section_control_state) _ _ v (
          if_both IsValidIfAny (ddi == dd.actual_work_state) _ _
            (report_work_state-IsValid element value s v) tt))

  pub on_value_command-IsValidServer :
      (dd : DataDictionary) (fresh : P) (server : Server P) (partner ddi element value : ℕ)
      → IsValidServer server
      → IsValidServer (on_value_command dd fresh server partner ddi element value).0
  unfolding on_value_command set_client
  on_value_command-IsValidServer dd fresh server partner ddi element value all =
      go (value_command dd ddi element value (client_at fresh server partner)) (
        value_command-IsValid dd ddi element value (client_at fresh server partner) (
          unfold client_at in
          AllClients-find IsValid partner server.clients (new_state fresh) (new_state-IsValid fresh)
            all))
    where
      go :
          (o : Option (ClientState P))
          → IsValidIfAny o
          → IsValidServer (store_client server partner o)
      go none v = all
      go (some s) v = AllClients-assign IsValid partner s server.clients v all
