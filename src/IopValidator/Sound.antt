-- ===== src/IopValidator/Sound.antt =====
-- What a pool that the tool accepts looks like.
use aog_task_controller.Prelude.{
  ℕ, ◌≤◌, ◌≡◌, refl, ◌∙◌, sym, ◌↔◌, ◌⊎◌, inl, inr, true, false, not, ◌&&◌, List, [], ◌∷◌, ◌++◌,
  Option, none, some, arith, ltb, ◌==◌, length,
}
use aog_task_controller.Prelude.Map.{find}
use aog_task_controller.IopValidator.{
  Kind, working_set, input_boolean, input_list, output_list, input_number, output_meter,
  output_linear_bar_graph, output_arched_bar_graph, other_kind, VtObject, Tree, is_dangling,
  is_none, complaints, flag_if, invalid_object, dangling_child, dangling_active_mask, bad_boolean,
  check_children, check_kind, check_object, check_objects, validate, is_empty,
}
use aog_task_controller.IopValidator.Flags.{
  both_iff, then_iff, is_empty-append, is_empty-flag_if, is_boolean_iff, Selects, checked_range,
  checked_list, AllBelow, checked_levels, exit_iff, valid_iff,
}

module _ (null_object_id : ℕ) where
  -- A reference is empty, or to an object of the pool.
  abbrev pub Resolves : Tree → ℕ → Type 0
  Resolves tree id =
      (id ≡ null_object_id) ⊎ (object : Option VtObject) × (find id tree ≡ some object)

  abbrev pub AllResolve : Tree → List ℕ → Type 0
  AllResolve tree [] = Unit {0}
  AllResolve tree (id ∷ rest) = Resolves tree id × AllResolve tree rest

  abbrev pub IsSoundKind : Tree → ℕ → Kind → Type 0
  IsSoundKind tree count (working_set mask) = Resolves tree mask
  IsSoundKind tree count (input_boolean value) = value ≤ 1
  IsSoundKind tree count (input_list value) = Selects value count
  IsSoundKind tree count (output_list value) = Selects value count
  IsSoundKind tree count (input_number value low high) = (low ≤ value) × (value ≤ high)
  IsSoundKind tree count (output_meter value low high) = (low ≤ value) × (value ≤ high)
  IsSoundKind tree count (output_linear_bar_graph value low high) = (low ≤ value) × (value ≤ high)
  IsSoundKind tree count (output_arched_bar_graph value low high) = (low ≤ value) × (value ≤ high)
  IsSoundKind tree count other_kind = Unit {0}

  abbrev pub IsSoundObject : Tree → Option VtObject → Type 0
  IsSoundObject tree none = Unit {0}
  IsSoundObject tree (some o) =
      (o.is_valid ≡ true)
      × (AllResolve tree o.children × IsSoundKind tree (length o.children) o.kind)

  abbrev pub AllSound : Tree → Tree → Type 0
  AllSound tree [] = Unit {0}
  AllSound tree ((id, object) ∷ rest) = IsSoundObject tree object × AllSound tree rest

  absent_iff :
      (tree : Tree) (id : ℕ) (o : Option (Option VtObject))
      → find id tree ≡ o
      → ((not (id == null_object_id) && is_none o) ≡ false) ↔ Resolves tree id
  absent_iff tree id none e = (
    (λ h. inl (ground (arith, h))),
    λ r. elim r [
      | inl same ↦ ground (arith, same)
      | inr (object, there) ↦ absurd (ground (arith, sym e ∙ there))
    ],
  )
  absent_iff tree id (some object) e = ((λ h. inr (object, e)), λ r. ground arith)

  Resolves-iff :
      (tree : Tree) (id : ℕ) → (is_dangling null_object_id tree id ≡ false) ↔ Resolves tree id
  unfolding is_dangling
  Resolves-iff tree id = absent_iff tree id (find id tree) refl

  checked_children :
      (tree : Tree) (object : ℕ) (children : List ℕ)
      → (is_empty (check_children null_object_id tree object children) ≡ true)
        ↔ AllResolve tree children
  unfolding check_children
  checked_children tree object [] = ((λ h. tt), λ h. refl)
  checked_children tree object (child ∷ rest) =
      let test = is_dangling null_object_id tree child in
      let flag = dangling_child object child in
      then_iff
        (is_empty-append (flag_if test flag) (check_children null_object_id tree object rest))
        (both_iff (then_iff (is_empty-flag_if test flag) (Resolves-iff tree child))
          (checked_children tree object rest))

  checked_kind :
      (tree : Tree) (object count : ℕ) (kind : Kind)
      → (is_empty (check_kind null_object_id tree object count kind) ≡ true)
        ↔ IsSoundKind tree count kind
  unfolding check_kind
  checked_kind tree object count (working_set mask) =
      then_iff
        (is_empty-flag_if (is_dangling null_object_id tree mask) (dangling_active_mask object mask))
        (Resolves-iff tree mask)
  checked_kind tree object count (input_boolean value) =
      then_iff (is_empty-flag_if (ltb 1 value) (bad_boolean object value)) (is_boolean_iff value)
  checked_kind tree object count (input_list value) = checked_list object value count
  checked_kind tree object count (output_list value) = checked_list object value count
  checked_kind tree object count (input_number value low high) = checked_range object value low high
  checked_kind tree object count (output_meter value low high) = checked_range object value low high
  checked_kind tree object count (output_linear_bar_graph value low high) =
      checked_range object value low high
  checked_kind tree object count (output_arched_bar_graph value low high) =
      checked_range object value low high
  checked_kind tree object count other_kind = ((λ h. tt), λ h. refl)

  checked_object :
      (tree : Tree) (id : ℕ) (object : Option VtObject)
      → (is_empty (check_object null_object_id tree id object) ≡ true) ↔ IsSoundObject tree object
  unfolding check_object
  checked_object tree id none = ((λ h. tt), λ h. refl)
  checked_object tree id (some o) =
      let count = length o.children in
      let children = check_children null_object_id tree id o.children in
      let kind = check_kind null_object_id tree id count o.kind in
      then_iff (is_empty-append (flag_if (not o.is_valid) (invalid_object id)) (children ++ kind)) (
        both_iff
          (then_iff (is_empty-flag_if (not o.is_valid) (invalid_object id)) (valid_iff o.is_valid))
          (then_iff (is_empty-append children kind)
            (both_iff (checked_children tree id o.children) (checked_kind tree id count o.kind))))

  checked_objects :
      (tree entries : Tree)
      → (is_empty (check_objects null_object_id tree entries) ≡ true) ↔ AllSound tree entries
  unfolding check_objects
  checked_objects tree [] = ((λ h. tt), λ h. refl)
  checked_objects tree ((id, object) ∷ rest) =
      then_iff
        (is_empty-append (check_object null_object_id tree id object)
          (check_objects null_object_id tree rest))
        (both_iff (checked_object tree id object) (checked_objects tree rest))

  -- A pool that has been read, without complaints of the parser, and with sound objects only.
  abbrev pub IsAccepted : ℕ → List ℕ → Option Tree → Type 0
  IsAccepted warning levels none = false ≡ true
  IsAccepted warning levels (some tree) = AllBelow warning levels × AllSound tree tree

  -- Called with one argument, the tool ends with the exit code 0 exactly if the pool could be read and
  -- parsed, the parser logged nothing at the level of a warning or above, and each object passes its own
  -- check, refers to objects of the pool only, and has a value in its range.
  pub validate_iff :
      (warning : ℕ) (levels : List ℕ) (pool : Option Tree)
      → (validate null_object_id warning 2 levels pool ≡ 0) ↔ IsAccepted warning levels pool
  unfolding validate
  validate_iff warning levels none = ((λ h. absurd (omega (arith, h))), λ h. absurd (ground arith))
  validate_iff warning levels (some tree) =
      let complained = complaints warning levels in
      let found = check_objects null_object_id tree tree in
      then_iff (exit_iff (is_empty (complained ++ found))) (
        then_iff (is_empty-append complained found)
          (both_iff (checked_levels warning levels) (checked_objects tree tree)))
