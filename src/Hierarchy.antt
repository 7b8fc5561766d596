-- ===== src/Hierarchy.antt =====
-- include/element_hierarchy.hpp: the parents of the device elements of a pool, and the walk up them.
pub mod Chain
pub mod Parents
use aog_task_controller.Prelude.{
  ℕ, zero, suc, Bool, true, false, List, [], ◌∷◌, Option, none, some, ◌==◌, if◌then◌else◌, length,
}
use aog_task_controller.Prelude.Map.{Map, find, assign}
use aog_task_controller.Isobus.{Object, device_element, Element, PoolLibrary, objects}

-- Element number to the element number of the parent.
abbrev pub ParentMap : Type 0
ParentMap = Map ℕ

-- The entry of one element, whose parent's object ID resolves to the second argument.
unfoldable pub add_parent : Element → Option Object → ParentMap → ParentMap
add_parent element (some (device_element parent)) parents =
    if parent.element_number == element.element_number
    then parents
    else assign element.element_number parent.element_number parents
add_parent element _ parents = parents

unfoldable pub add_parents : (ℕ → Option Object) → List Object → ParentMap → ParentMap
add_parents by_id [] parents = parents
add_parents by_id (device_element element ∷ rest) parents =
    add_parents by_id rest (add_parent element (by_id element.parent_object) parents)
add_parents by_id (_ ∷ rest) parents = add_parents by_id rest parents

module _ (lib : PoolLibrary) where
  open lib use {Pool, object_by_id}

  unfoldable pub build_parent_map : Pool → ParentMap
  unfolding add_parents
  build_parent_map pool = add_parents (object_by_id pool) (objects lib pool) []

-- The rounds that are left of `for (visited = 0; visited <= parents.size(); visited++)`.
unfoldable pub any_in_chain_from : ℕ → ParentMap → ℕ → (ℕ → Bool) → Bool
any_in_chain_from zero parents element_number predicate = false
any_in_chain_from (suc rounds) parents element_number predicate = elim (predicate element_number) [
  | true ↦ true
  | false ↦ elim (find element_number parents) [
    | none ↦ false
    | some parent ↦ any_in_chain_from rounds parents parent predicate
  ]
]

unfoldable pub any_in_chain : ParentMap → ℕ → (ℕ → Bool) → Bool
unfolding any_in_chain_from
any_in_chain parents element_number predicate =
    any_in_chain_from (suc (length parents)) parents element_number predicate
