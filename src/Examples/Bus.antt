-- ===== src/Examples/Bus.antt =====
-- A small implement on the bus: one boom with two sections, and a client that is configured from it.
use aog_task_controller.Prelude.{
  ℕ, zero, suc, ◌+◌, ◌*◌, ◌/◌, ◌%◌, ◌^◌, ◌≤◌, ◌<◌, ◌≡◌, ◌≢◌, refl, ◌⊎◌, ◌↔◌, Bool, true, false,
  List, [], ◌∷◌, ◌++◌, Option, none, some, arith, ◌==◌, length, get_or,
}
use aog_task_controller.Prelude.Map.{find}
use aog_task_controller.Isobus.{
  DataDictionary, IsStandard, Object, device, device_element, process_data, PoolLibrary, Boom,
  objects,
}
use aog_task_controller.Hierarchy.{ParentMap, build_parent_map, any_in_chain}
use aog_task_controller.Hierarchy.Chain.{Ancestor, here, up, any_in_chain_iff}
use aog_task_controller.Hierarchy.Parents.{ParentIn, find-build_parent_map}
use aog_task_controller.Client.{
  ClientState, new_state, get_section_setpoint_state, get_section_actual_state,
  get_element_number_for_section,
}
use aog_task_controller.Client.ParentOff.{
  IsOff, get_section_actual_state-off, get_section_actual_state_reported,
}
use aog_task_controller.Client.Invariant.{IsValid}
use aog_task_controller.Server.{Server, empty_server}
use aog_task_controller.Server.ValueCommand.{value_command}
use aog_task_controller.Server.ValueCommand.Condensed.{value_command_condensed}
use aog_task_controller.Server.Setpoints.{condensed_value, update_client_sections}
use aog_task_controller.Server.Setpoints.Packing.{condensed_value_read}
use aog_task_controller.Server.Setpoints.Demand.{wanted_state, update_client_sections_setpoints}
use aog_task_controller.Server.Setpoints.Settled.{update_client_sections_twice}
use aog_task_controller.Server.Activation.{configure_client, activate_object_pool}
use aog_task_controller.Server.Activation.Outcome.{
  expected, clients_after, activate_object_pool_answer,
}
use aog_task_controller.Server.Activation.Sections.{
  sub_boom_count, boom_count, HasBoom, configure_client_sections,
}
use aog_task_controller.Server.Run.{
  Call, activates, stores, commands, requests_measurements, updates_sections, updates_control,
  sends_quality, run,
}
use aog_task_controller.Server.Invariant.{IsValidServer}
use aog_task_controller.Server.Invariant.Calls.{run-IsValidServer}

abbrev pub dictionary : DataDictionary
dictionary = record {
  actual_work_state = 141;
  setpoint_work_state = 289;
  section_control_state = 160;
  gnss_quality = 514;
  actual_condensed_work_state = λ k. 161 + k;
  setpoint_condensed_work_state = λ k. 290 + k;
  condensed_section_override_state = λ k. 367 + k;
}

pub dictionary-IsStandard : IsStandard dictionary
dictionary-IsStandard = record {
  actual_consecutive = λ k h. omega arith;
  setpoint_consecutive = λ k h. omega arith;
  actual_below_setpoint = omega arith;
  setpoint_next = omega arith;
  work_state_below = omega arith;
  control_below = omega arith;
  fits = omega arith;
}

-- A pool is the list of its objects. A chunk of one byte is the whole implement, any other an error.
abbrev id_of : Object → Option ℕ
id_of (device_element e) = some e.object_id
id_of (process_data d) = some d.object_id
id_of _ = none

abbrev has_id : ℕ → Option ℕ → Bool
has_id id none = false
has_id id (some other) = other == id

abbrev at_index : List Object → ℕ → Option Object
at_index [] i = none
at_index (o ∷ rest) zero = some o
at_index (o ∷ rest) (suc i) = at_index rest i

abbrev with_id : List Object → ℕ → Option Object
with_id [] id = none
with_id (o ∷ rest) id = elim (has_id id (id_of o)) [ true ↦ some o | false ↦ with_id rest id ]

abbrev element : (object_id element_number parent_object : ℕ) → List ℕ → Object
element object_id element_number parent_object children = device_element (record {
  object_id = object_id;
  element_number = element_number;
  parent_object = parent_object;
  child_object_ids = children;
})

abbrev condensed_data : Object
condensed_data =
    process_data (record {
      object_id = 9;
      ddi = 161;
      settable = false;
      on_change = true;
      time_interval = false;
    })

abbrev implement : List Object
implement =
    device (b'b' ∷ b'o' ∷ b'o' ∷ b'm' ∷ [])
    ∷ element 1 1 0 []
    ∷ element 2 2 1 (9 ∷ [])
    ∷ element 3 3 2 []
    ∷ element 4 4 2 []
    ∷ condensed_data
    ∷ []

abbrev decode : List ℕ → ℕ → List Object → Bool × List Object
decode (c ∷ []) name pool = (true, implement)
decode _ name pool = (false, pool)

abbrev pub library : PoolLibrary
library = record {
  Pool = List Object;
  default_pool = [];
  set_second_edition_draft = λ pool. pool;
  size = length;
  object_at = at_index;
  object_by_id = with_id;
  deserialize = decode;
  generate_binary = λ pool. some (length pool ∷ []);
  booms = λ pool. record { sub_booms = []; sections = 3 ∷ 4 ∷ [] } ∷ [];
}

-- Two sections, the first of which is on.
abbrev pub client : ClientState (List Object)
client = record (new_state implement) {
  number_of_sections = 2;
  section_setpoint_states = 1 ∷ 0 ∷ [];
  section_actual_states = 0 ∷ 0 ∷ [];
  section_to_element_number = 3 ∷ 4 ∷ [];
  ddi_to_element_number = (290, 2) ∷ (289, 2) ∷ [];
  section_control_enabled = true;
}

find_nothing : (e q : ℕ) → find {V = ℕ} e [] ≡ some q → ⊥
unfolding find
find_nothing e q h = ground arith

pub client-IsValid : IsValid client
unfolding new_state
client-IsValid = record {
  count_fits = omega arith;
  setpoint_length = refl;
  actual_length = refl;
  element_length = refl;
  setpoint_states = (omega arith, (omega arith, tt));
  actual_states = (omega arith, (omega arith, tt));
  reverse_in_range = λ e section found. absurd (find_nothing e section found);
}

abbrev parents : ParentMap
parents = (2, 1) ∷ (3, 2) ∷ (4, 2) ∷ []

abbrev is_boom : ℕ → Bool
is_boom e = e == 1

any_in_chain_iff_example :
    (any_in_chain parents 3 is_boom ≡ true) ↔ ((a : ℕ) × Ancestor parents 3 a × (is_boom a ≡ true))
any_in_chain_iff_example = any_in_chain_iff parents 3 is_boom

find-build_parent_map_example :
    ((q : ℕ)
      → find 3 (build_parent_map library implement) ≡ some q
      → ParentIn (with_id implement) (objects library implement) 3 q)
    × ((q : ℕ)
        → ParentIn (with_id implement) (objects library implement) 3 q
        → (r : ℕ) × (find 3 (build_parent_map library implement) ≡ some r))
find-build_parent_map_example = find-build_parent_map library implement 3

-- A client uploads its pool, is activated and is asked for its state; it reports a condensed state, and
-- the application turns a section on.
abbrev season : List Call
season =
    stores 1 (7 ∷ []) true
    ∷ activates 5 1
    ∷ requests_measurements
    ∷ commands 1 161 2 6
    ∷ updates_control true
    ∷ updates_sections (false ∷ true ∷ [])
    ∷ sends_quality 4
    ∷ []

run-IsValidServer_example :
    IsValidServer (run library dictionary (λ name file. false) empty_server season).0
run-IsValidServer_example =
    run-IsValidServer library dictionary (λ name file. false) empty_server season tt

value_command_condensed_example :
    (s' : ClientState (List Object)) × (value_command dictionary 161 2 6 client ≡ some s')
    × (s'.number_of_sections ≡ 2)
    × ((i : ℕ)
        → i < 16
        → 16 * 0 + i < 2
        → (get_or s'.section_actual_states (16 * 0 + i) 0 ≡ 6 / 2 ^ (2 * i) % 4)
          × (get_or s'.section_to_element_number (16 * 0 + i) 0 ≡ 2))
    × ((j : ℕ)
        → (j < 16 * 0) ⊎ (16 * 0 + 16 ≤ j)
        → (get_or s'.section_actual_states j 0 ≡ get_or (0 ∷ 0 ∷ []) j 0)
          × (get_or s'.section_to_element_number j 0 ≡ get_or (3 ∷ 4 ∷ []) j 0))
value_command_condensed_example =
    value_command_condensed dictionary 0 2 6 client dictionary-IsStandard (omega arith)
      client-IsValid

condensed_value_read_example :
    condensed_value client 0 / 2 ^ (2 * 0) % 4 ≡ get_section_setpoint_state client (16 * 0 + 0)
condensed_value_read_example =
    condensed_value_read client client-IsValid 0 0 (omega arith) (omega arith)

update_client_sections_setpoints_example :
    get_or
      (update_client_sections library dictionary
        (false ∷ true ∷ [])
        1
        client).0.section_setpoint_states
      1
      0
    ≡ wanted_state (false ∷ true ∷ []) 1 0
update_client_sections_setpoints_example =
    update_client_sections_setpoints library dictionary (false ∷ true ∷ []) 1 client 1
      client-IsValid refl (omega arith)

update_client_sections_twice_example :
    let s' = (update_client_sections library dictionary (false ∷ true ∷ []) 1 client).0 in
    update_client_sections library dictionary (false ∷ true ∷ []) 1 s' ≡ (s', [])
update_client_sections_twice_example =
    update_client_sections_twice library dictionary (false ∷ true ∷ []) 1 client client-IsValid

few_sections : boom_count (library.booms implement) < 256
unfolding boom_count sub_boom_count
few_sections = omega arith

configure_client_sections_example :
    let s = configure_client library dictionary implement in
    (s.number_of_sections ≡ boom_count (library.booms implement))
    × ((before after : List Boom) (b : Boom)
        → library.booms implement ≡ before ++ (b ∷ after)
        → HasBoom library dictionary s (boom_count before) b)
configure_client_sections_example =
    configure_client_sections library dictionary implement few_sections

abbrev uploaded : Server (List Object)
uploaded = record { clients = []; uploaded_pools = (1, (7 ∷ []) ∷ []) ∷ [] }

chunks_there : find 1 uploaded.uploaded_pools ≡ some ((7 ∷ []) ∷ [])
unfolding find
chunks_there = refl

-- Nothing is refused by the file system.
abbrev no_failure : ℕ → List ℕ → Bool
no_failure name file = false

activate_object_pool_answer_example :
    let (server', answer) = activate_object_pool library dictionary no_failure 5 uploaded 1 in
    let upload : Option (List (List ℕ)) = some ((7 ∷ []) ∷ []) in
    let v = expected library dictionary no_failure 5 upload in
    (answer ≡ v)
    × (server'.clients ≡ clients_after library dictionary no_failure 5 v 1 upload [])
    × (find 1 server'.uploaded_pools ≡ some [])
activate_object_pool_answer_example =
    activate_object_pool_answer library dictionary no_failure 5 uploaded 1 (some ((7 ∷ []) ∷ []))
      chunks_there

-- The boom was reported as off, and the second section as on.
abbrev boom_off : ClientState (List Object)
boom_off = record client {
  element_parents = (3, 2) ∷ (4, 2) ∷ [];
  element_work_states = (2, false) ∷ [];
  section_actual_states = 0 ∷ 1 ∷ [];
}

above_second : Ancestor boom_off.element_parents (get_element_number_for_section boom_off 1) 2
unfolding get_element_number_for_section find
above_second = up 4 2 refl (here 2)

boom_IsOff : IsOff boom_off 2
unfolding find
boom_IsOff = refl

boom_condensed : boom_off.uses_per_element_control ≡ false
unfolding new_state
boom_condensed = refl

get_section_actual_state-off_example : get_section_actual_state boom_off 1 ≡ 0
get_section_actual_state-off_example =
    get_section_actual_state-off boom_off 1 2 (omega arith) boom_condensed above_second boom_IsOff

pub none_recorded : (e : ℕ) → find {V = Bool} e [] ≢ some false
unfolding find
none_recorded e h = ground arith

uses_condensed : client.uses_per_element_control ≡ false
unfolding new_state
uses_condensed = refl

none-IsOff :
    (a : ℕ)
    → Ancestor client.element_parents (get_element_number_for_section client 0) a
    → ¬ IsOff client a
unfolding new_state
none-IsOff a above = none_recorded a

get_section_actual_state_reported_example : get_section_actual_state client 0 ≡ 0
get_section_actual_state_reported_example =
    get_section_actual_state_reported client 0 (omega arith) uses_condensed none-IsOff
