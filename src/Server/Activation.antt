-- ===== src/Server/Activation.antt =====
-- `MyTCServer::activate_object_pool`: from the uploaded chunks of a pool to the state of a client.
-- The file with the received bytes never affects the result and is left out; that with the generated
-- pool does, since the path of a file may be refused by an exception.
pub mod Mapped
pub mod Sections
pub mod Verdict
pub mod Outcome
use aog_task_controller.Prelude.{
  ℕ, zero, suc, ◌+◌, Bool, true, false, ◌&&◌, ◌||◌, List, [], ◌∷◌, ◌++◌, Option, none, some, ltb,
  leb, ◌==◌, if◌then◌else◌, any, map, u8, length,
}
use aog_task_controller.Prelude.Map.{find, assign}
use aog_task_controller.Isobus.{
  DataDictionary, PoolLibrary, Object, device, process_data, Boom, SubBoom, objects,
}
use aog_task_controller.Client.{
  ClientState, new_state, build_element_hierarchy, set_number_of_sections,
  set_element_number_for_section, set_uses_per_element_control, set_per_element_setpoint_ddi,
}
use aog_task_controller.Server.{Server}
use aog_task_controller.Server.Measurement.{in_block}

pub data ActivationError : Type 0 where
  there_are_errors_in_the_ddop any_other_error : ActivationError

pub data PoolError : Type 0 where
  no_errors unknown_object_reference any_other_pool_error : PoolError

-- `rejected` is `return false` with the two error codes; the object IDs are then the null ID.
-- `threw` is an exception of `Settings::get_filename_path`.
pub data Activation : Type 0 where
  accepted : Activation
  rejected : ActivationError → PoolError → Activation
  threw : Activation

-- `sanitize_filename` on the bytes of a name: \ / * : ? " < > |
abbrev pub invalid_chars : List ℕ
invalid_chars = 92 ∷ 47 ∷ 42 ∷ 58 ∷ 63 ∷ 34 ∷ 60 ∷ 62 ∷ 124 ∷ []

unfoldable pub sanitize_filename : List ℕ → List ℕ
sanitize_filename = map λ c. if any (λ bad. bad == c) invalid_chars then b'_' else c

-- The label up to the first byte that is not printable.
unfoldable pub printable_prefix : List ℕ → List ℕ
printable_prefix [] = []
printable_prefix (c ∷ rest) =
    let kept = c ∷ printable_prefix rest in if ltb c 0x20 || leb 0x7F c then [] else kept

unfoldable pub find_device : List Object → Option (List ℕ)
find_device [] = none
find_device (device label ∷ rest) = some label
find_device (_ ∷ rest) = find_device rest

-- The element numbers of the sections: of each boom the sub-booms' first, then its own.
unfoldable pub sub_boom_sections : List SubBoom → List ℕ
sub_boom_sections [] = []
sub_boom_sections (b ∷ rest) = b.sections ++ sub_boom_sections rest

unfoldable pub section_element_numbers : List Boom → List ℕ
unfolding sub_boom_sections
section_element_numbers [] = []
section_element_numbers (b ∷ rest) =
    sub_boom_sections b.sub_booms ++ b.sections ++ section_element_numbers rest

module _ {P : Type 0} where
  -- The rounds left, the index of the next section, and the numbers from there on.
  unfoldable pub map_sections : ℕ → ℕ → List ℕ → ClientState P → ClientState P
  map_sections zero i elements s = s
  map_sections (suc rounds) i [] s = s
  map_sections (suc rounds) i (e ∷ elements) s =
      map_sections rounds (i + 1) elements (set_element_number_for_section s i e)

-- The three flags that the scan of the pool sets.
pub record Methods : Type 0 where
  pub condensed_setpoint : Bool
  pub settable_condensed_actual : Bool
  pub settable_actual_work_state : Bool

abbrev pub no_methods : Methods
no_methods = record {
  condensed_setpoint = false;
  settable_condensed_actual = false;
  settable_actual_work_state = false;
}

module _ (dd : DataDictionary) where
  unfoldable pub scan_object : Object → Methods → Methods
  scan_object (process_data d) m = record {
    condensed_setpoint = m.condensed_setpoint || in_block dd.setpoint_condensed_work_state d.ddi;
    settable_condensed_actual =
        m.settable_condensed_actual || in_block dd.actual_condensed_work_state d.ddi && d.settable;
    settable_actual_work_state =
        m.settable_actual_work_state || d.ddi == dd.actual_work_state && d.settable;
  }
  scan_object _ m = m

  unfoldable pub scan_objects : List Object → Methods → Methods
  unfolding scan_object
  scan_objects [] m = m
  scan_objects (o ∷ rest) m = scan_objects rest (scan_object o m)

  -- The newer methods win; only the oldest changes the state.
  unfoldable pub select_method : {P : Type 0} → Methods → ClientState P → ClientState P
  select_method m s =
      if m.condensed_setpoint || m.settable_condensed_actual
      then s
      else if m.settable_actual_work_state
      then set_per_element_setpoint_ddi (set_uses_per_element_control s true) dd.actual_work_state
      else s

module _ (lib : PoolLibrary) (dd : DataDictionary) where
  open lib use {Pool, default_pool, set_second_edition_draft, deserialize, generate_binary, booms}

  -- The loop over the queue: the last chunk decides whether the pool counts as deserialized.
  unfoldable pub deserialize_chunks : ℕ → List (List ℕ) → Bool × Pool → Bool × Pool
  deserialize_chunks name [] acc = acc
  deserialize_chunks name (chunk ∷ rest) (_, pool) =
      deserialize_chunks name rest (deserialize chunk name pool)

  -- The state of a client, from a pool that has a device object.
  unfoldable pub configure_client : Pool → ClientState Pool
  unfolding section_element_numbers map_sections scan_objects select_method
  configure_client pool =
      let elements = section_element_numbers (booms pool) in
      let number = u8 (length elements) in
      let s = build_element_hierarchy lib (new_state pool) in
      let s' = map_sections number 0 elements (set_number_of_sections s number) in
      select_method dd (scan_objects dd (objects lib pool) no_methods) s'

  -- `path_fails` says whether `get_filename_path` throws for the file of a client's pool.
  unfoldable pub saving_throws : (ℕ → List ℕ → Bool) → ℕ → List ℕ → Option (List ℕ) → Bool
  unfolding sanitize_filename printable_prefix
  saving_throws path_fails name label none = false
  saving_throws path_fails name label (some binary) =
      path_fails name (sanitize_filename (printable_prefix label))

  unfoldable pub activate_pool :
      (ℕ → List ℕ → Bool) → ℕ → Pool → Option (List ℕ) → Activation × Option (ClientState Pool)
  unfolding configure_client saving_throws
  activate_pool path_fails name pool none =
      (rejected there_are_errors_in_the_ddop unknown_object_reference, none)
  activate_pool path_fails name pool (some label) =
      if saving_throws path_fails name label (generate_binary pool)
      then (threw, none)
      else (accepted, some (configure_client pool))

  unfoldable pub activate_chunks :
      (ℕ → List ℕ → Bool) → ℕ → List (List ℕ) → Activation × Option (ClientState Pool)
  unfolding activate_pool deserialize_chunks find_device
  activate_chunks path_fails name chunks =
      let (deserialized, pool) =
        deserialize_chunks name chunks (false, set_second_edition_draft default_pool) in
      let outcome = activate_pool path_fails name pool (find_device (objects lib pool)) in
      if deserialized
      then outcome
      else (rejected there_are_errors_in_the_ddop any_other_pool_error, none)

  -- The queue is drained whatever comes of it.
  unfoldable pub finish_activation :
      Server Pool → ℕ → Activation × Option (ClientState Pool) → Server Pool × Activation
  finish_activation server partner (result, none) =
      (record server { uploaded_pools = assign partner [] server.uploaded_pools }, result)
  finish_activation server partner (result, some state) = (
    record server {
      clients = assign partner state server.clients;
      uploaded_pools = assign partner [] server.uploaded_pools;
    },
    result,
  )

  unfoldable pub activate_uploaded :
      (ℕ → List ℕ → Bool) → ℕ → Server Pool → ℕ → Option (List (List ℕ)) → Server Pool × Activation
  unfolding activate_chunks finish_activation
  activate_uploaded path_fails name server partner none =
      (server, rejected any_other_error no_errors)
  activate_uploaded path_fails name server partner (some chunks) =
      finish_activation server partner (activate_chunks path_fails name chunks)

  -- `name` is the full NAME of the partner.
  unfoldable pub activate_object_pool :
      (ℕ → List ℕ → Bool) → ℕ → Server Pool → ℕ → Server Pool × Activation
  unfolding activate_uploaded
  activate_object_pool path_fails name server partner =
      activate_uploaded path_fails name server partner (find partner server.uploaded_pools)
