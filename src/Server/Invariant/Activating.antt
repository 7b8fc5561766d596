-- ===== src/Server/Invariant/Activating.antt =====
-- A state that activation sets up is valid.
use aog_task_controller.Prelude.{
  ℕ, zero, suc, ◌+◌, Bool, false, List, [], ◌∷◌, Option, none, some, arith, if_both, u8, length,
  ◌||◌,
}
use aog_task_controller.Prelude.Map.{find}
use aog_task_controller.Isobus.{DataDictionary, PoolLibrary, objects}
use aog_task_controller.Client.{
  ClientState, new_state, set_number_of_sections, set_element_number_for_section,
  set_uses_per_element_control, set_per_element_setpoint_ddi, build_element_hierarchy,
}
use aog_task_controller.Client.Invariant.{
  IsValid, new_state-IsValid, set_number_of_sections-IsValid,
  set_element_number_for_section-IsValid,
}
use aog_task_controller.Server.{Server}
use aog_task_controller.Server.Activation.{
  Activation, Methods, map_sections, select_method, scan_objects, no_methods,
  section_element_numbers, configure_client, activate_pool, activate_chunks, finish_activation,
  activate_uploaded, activate_object_pool, saving_throws, deserialize_chunks, find_device,
}
use aog_task_controller.Server.Invariant.{AllClients-assign, IsValidServer}

module _ {P : Type 0} where
  map_sections-IsValid :
      (rounds i : ℕ) (elements : List ℕ) (s : ClientState P)
      → IsValid s
      → IsValid (map_sections rounds i elements s)
  unfolding map_sections
  map_sections-IsValid zero i elements s v = v
  map_sections-IsValid (suc rounds) i [] s v = v
  map_sections-IsValid (suc rounds) i (e ∷ elements) s v =
      map_sections-IsValid rounds (i + 1) elements (set_element_number_for_section s i e)
        (set_element_number_for_section-IsValid s i e v)

  select_method-IsValid :
      (dd : DataDictionary) (m : Methods) (s : ClientState P)
      → IsValid s
      → IsValid (select_method dd m s)
  unfolding select_method set_uses_per_element_control set_per_element_setpoint_ddi
  select_method-IsValid dd m s v =
      if_both IsValid (m.condensed_setpoint || m.settable_condensed_actual) _ _ v
        (if_both IsValid m.settable_actual_work_state _ _ v v)

module _ (lib : PoolLibrary) (dd : DataDictionary) where
  open lib use {Pool, booms, default_pool, set_second_edition_draft, generate_binary}

  pub configure_client-IsValid : (pool : Pool) → IsValid (configure_client lib dd pool)
  unfolding configure_client build_element_hierarchy
  configure_client-IsValid pool =
      let elements = section_element_numbers (booms pool) in
      let number = u8 (length elements) in
      let s = build_element_hierarchy lib (new_state pool) in
      select_method-IsValid dd (scan_objects dd (objects lib pool) no_methods) _ (
        map_sections-IsValid number 0 elements (set_number_of_sections s number) (
          set_number_of_sections-IsValid s number (omega arith) (unfold new_state in omega arith)
            (new_state-IsValid pool)))

  -- The state that comes with an outcome, if any.
  abbrev IsValidOutcome : Activation × Option (ClientState Pool) → Type 0
  IsValidOutcome (result, none) = Unit {0}
  IsValidOutcome (result, some s) = IsValid s

  activate_pool-IsValid :
      (path_fails : ℕ → List ℕ → Bool) (name : ℕ) (pool : Pool) (label : Option (List ℕ))
      → IsValidOutcome (activate_pool lib dd path_fails name pool label)
  unfolding activate_pool
  activate_pool-IsValid path_fails name pool none = tt
  activate_pool-IsValid path_fails name pool (some label) =
      if_both IsValidOutcome (saving_throws lib dd path_fails name label (generate_binary pool)) _ _
        tt (configure_client-IsValid pool)

  activate_chunks-IsValid :
      (path_fails : ℕ → List ℕ → Bool) (name : ℕ) (chunks : List (List ℕ))
      → IsValidOutcome (activate_chunks lib dd path_fails name chunks)
  unfolding activate_chunks
  activate_chunks-IsValid path_fails name chunks =
      let r =
        deserialize_chunks lib dd name chunks (false, set_second_edition_draft default_pool) in
      if_both IsValidOutcome r.0 _ _
        (activate_pool-IsValid path_fails name r.1 (find_device (objects lib r.1))) tt

  finish_activation-IsValidServer :
      (server : Server Pool) (partner : ℕ) (outcome : Activation × Option (ClientState Pool))
      → IsValidOutcome outcome
      → IsValidServer server
      → IsValidServer (finish_activation lib dd server partner outcome).0
  unfolding finish_activation
  finish_activation-IsValidServer server partner (result, none) v all = all
  finish_activation-IsValidServer server partner (result, some s) v all =
      AllClients-assign IsValid partner s server.clients v all

  activate_uploaded-IsValidServer :
      (path_fails : ℕ → List ℕ → Bool) (name : ℕ) (server : Server Pool) (partner : ℕ)
      (chunks : Option (List (List ℕ)))
      → IsValidServer server
      → IsValidServer (activate_uploaded lib dd path_fails name server partner chunks).0
  unfolding activate_uploaded
  activate_uploaded-IsValidServer path_fails name server partner none all = all
  activate_uploaded-IsValidServer path_fails name server partner (some chunks) all =
      finish_activation-IsValidServer server partner (activate_chunks lib dd path_fails name chunks)
        (activate_chunks-IsValid path_fails name chunks) all

  pub activate_object_pool-IsValidServer :
      (path_fails : ℕ → List ℕ → Bool) (name : ℕ) (server : Server Pool) (partner : ℕ)
      → IsValidServer server
      → IsValidServer (activate_object_pool lib dd path_fails name server partner).0
  unfolding activate_object_pool
  activate_object_pool-IsValidServer path_fails name server partner =
      activate_uploaded-IsValidServer path_fails name server partner
        (find partner server.uploaded_pools)
