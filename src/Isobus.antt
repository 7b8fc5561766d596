-- ===== src/Isobus.antt =====
-- What the program uses of the AgIsoStack library: the numbers of its data dictionary, the getters of
-- the objects of a device descriptor object pool (DDOP), and the operations on such a pool. The
-- library is not part of the repository, so all of it is a parameter of the model.
use aog_task_controller.Prelude.{
  ℕ, zero, suc, ◌+◌, ◌<◌, ◌≡◌, Bool, List, [], ◌∷◌, Option, none, some,
}

-- `isobus::DataDescriptionIndex`. A condensed work state has sixteen entries, one for each sixteen
-- sections; entry k covers the sections 16 k to 16 k + 15.
pub record DataDictionary : Type 0 where
  pub actual_work_state : ℕ
  pub setpoint_work_state : ℕ
  pub section_control_state : ℕ
  pub gnss_quality : ℕ
  pub actual_condensed_work_state : ℕ → ℕ
  pub setpoint_condensed_work_state : ℕ → ℕ
  pub condensed_section_override_state : ℕ → ℕ

-- What ISO 11783-11 fixes of these numbers: the entries of a condensed state are consecutive, and the
-- numbers that the program tells apart are apart and fit 16 bits.
pub record IsStandard (d : DataDictionary) : Type 0 where
  pub actual_consecutive :
      (k : ℕ) → k < 16 → d.actual_condensed_work_state k ≡ d.actual_condensed_work_state 0 + k
  pub setpoint_consecutive :
      (k : ℕ) → k < 16 → d.setpoint_condensed_work_state k ≡ d.setpoint_condensed_work_state 0 + k
  pub actual_below_setpoint : d.actual_condensed_work_state 0 + 15 < d.setpoint_work_state
  pub setpoint_next : d.setpoint_condensed_work_state 0 ≡ d.setpoint_work_state + 1
  pub work_state_below : d.actual_work_state < d.section_control_state
  pub control_below : d.section_control_state < d.actual_condensed_work_state 0
  pub fits : d.setpoint_condensed_work_state 0 + 15 < 65536

-- An object of a pool, as its getters show it: `DeviceObject` by its localization label,
-- `DeviceElementObject`, `DeviceProcessDataObject`, and every other type.
pub record Element : Type 0 where
  pub object_id : ℕ
  pub element_number : ℕ
  pub parent_object : ℕ
  pub child_object_ids : List ℕ

pub record ProcessData : Type 0 where
  pub object_id : ℕ
  pub ddi : ℕ
  pub settable : Bool
  pub on_change : Bool
  pub time_interval : Bool

pub data Object : Type 0 where
  device : List ℕ → Object
  device_element : Element → Object
  process_data : ProcessData → Object
  other_object : Object

-- `DeviceDescriptorObjectPoolHelper::Implement`, as far as activation reads it: the element numbers of
-- the sections, by boom and sub-boom.
pub record SubBoom : Type 0 where
  pub sections : List ℕ

pub record Boom : Type 0 where
  pub sub_booms : List SubBoom
  pub sections : List ℕ

-- `DeviceDescriptorObjectPool`. `object_at` is `get_object_by_index`, `object_by_id` is
-- `get_object_by_id`. `set_second_edition_draft` is `set_task_controller_compatibility_level` at the
-- level that activation passes; `deserialize` takes the bytes of a chunk and the NAME of the client.
pub record PoolLibrary : Type 1 where
  pub Pool : Type 0
  pub default_pool : Pool
  pub set_second_edition_draft : Pool → Pool
  pub size : Pool → ℕ
  pub object_at : Pool → ℕ → Option Object
  pub object_by_id : Pool → ℕ → Option Object
  pub deserialize : List ℕ → ℕ → Pool → Bool × Pool
  pub generate_binary : Pool → Option (List ℕ)
  pub booms : Pool → List Boom

-- What `for (i = 0; i < pool.size(); i++)` visits: every loop of the program skips a null object.
objects_from : (ℕ → Option Object) → ℕ → ℕ → List Object
objects_from at zero i = []
objects_from at (suc rounds) i = elim (at i) [
  | none ↦ objects_from at rounds (i + 1)
  | some object ↦ object ∷ objects_from at rounds (i + 1)
]

module _ (lib : PoolLibrary) where
  open lib use {Pool, size, object_at}

  unfoldable pub objects : Pool → List Object
  unfolding objects_from
  objects pool = objects_from (object_at pool) (size pool) 0
