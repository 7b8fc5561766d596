-- ===== src/IopValidator.antt =====
-- tools/iop_validator.cpp: the check of an object pool for the virtual terminal at build time. The parser
-- of the pool, its objects and their own check `get_is_valid` belong to the CAN stack and are parameters.
pub mod Flags
pub mod Sound
use aog_task_controller.Prelude.{
  ℕ, Bool, true, false, not, ◌&&◌, ◌||◌, List, [], ◌∷◌, ◌++◌, Option, none, some, ltb, leb, ◌==◌,
  if◌then◌else◌, length,
}
use aog_task_controller.Prelude.Map.{Map, find}

-- The types of objects that the tool tells apart, with what it reads of them.
pub data Kind : Type 0 where
  working_set : (active_mask : ℕ) → Kind
  input_boolean : (value : ℕ) → Kind
  input_list output_list : (value : ℕ) → Kind
  input_number : (value minimum maximum : ℕ) → Kind
  output_meter : (value minimum maximum : ℕ) → Kind
  output_linear_bar_graph : (value minimum maximum : ℕ) → Kind
  output_arched_bar_graph : (value minimum maximum : ℕ) → Kind
  other_kind : Kind

pub record VtObject : Type 0 where
  pub kind : Kind
  pub children : List ℕ
  pub is_valid : Bool

-- The tree maps an object ID to an object, or to a null pointer.
abbrev pub Tree : Type 0
Tree = Map (Option VtObject)

pub data Violation : Type 0 where
  parser_complaint : Violation
  invalid_object : (object : ℕ) → Violation
  dangling_child dangling_active_mask : (object referenced : ℕ) → Violation
  bad_boolean : (object value : ℕ) → Violation
  bad_list_value : (object value item_count : ℕ) → Violation
  outside_range : (object value minimum maximum : ℕ) → Violation

abbrev pub flag_if : Bool → Violation → List Violation
flag_if test violation = if test then violation ∷ [] else []

-- `sink_CAN_stack_log`, for the levels of the messages of the parser; `warning` is the least level that
-- counts.
unfoldable pub complaints : ℕ → List ℕ → List Violation
complaints warning [] = []
complaints warning (level ∷ rest) =
    flag_if (leb warning level) parser_complaint ++ complaints warning rest

abbrev pub is_none : Option (Option VtObject) → Bool
is_none none = true
is_none (some object) = false

-- `check_min_max`, and the same test of an `InputNumber`.
unfoldable pub check_min_max : ℕ → ℕ → ℕ → ℕ → List Violation
check_min_max object value minimum maximum =
    flag_if (ltb value minimum || ltb maximum value) (outside_range object value minimum maximum)

unfoldable pub check_list : ℕ → ℕ → ℕ → List Violation
check_list object value item_count =
    flag_if (not (item_count == 0) && (not (value == 0xFF) && leb item_count value))
      (bad_list_value object value item_count)

abbrev pub is_empty : List Violation → Bool
is_empty [] = true
is_empty (violation ∷ rest) = false

-- The exit code for whether the tool accepts the pool.
abbrev pub exit_code : Bool → ℕ
exit_code true = 0
exit_code false = 1

-- The object that stands for none has the ID `null_object_id`.
module _ (null_object_id : ℕ) where
  -- The test of `check_reference`.
  unfoldable pub is_dangling : Tree → ℕ → Bool
  is_dangling tree referenced = not (referenced == null_object_id) && is_none (find referenced tree)

  -- The loop over the children.
  unfoldable pub check_children : Tree → ℕ → List ℕ → List Violation
  unfolding is_dangling
  check_children tree object [] = []
  check_children tree object (child ∷ rest) =
      flag_if (is_dangling tree child) (dangling_child object child)
      ++ check_children tree object rest

  -- The check of the active mask, and the `switch`.
  unfoldable pub check_kind : Tree → ℕ → ℕ → Kind → List Violation
  unfolding is_dangling check_min_max check_list
  check_kind tree object count (working_set mask) =
      flag_if (is_dangling tree mask) (dangling_active_mask object mask)
  check_kind tree object count (input_boolean value) =
      flag_if (ltb 1 value) (bad_boolean object value)
  check_kind tree object count (input_list value) = check_list object value count
  check_kind tree object count (output_list value) = check_list object value count
  check_kind tree object count (input_number value low high) = check_min_max object value low high
  check_kind tree object count (output_meter value low high) = check_min_max object value low high
  check_kind tree object count (output_linear_bar_graph value low high) =
      check_min_max object value low high
  check_kind tree object count (output_arched_bar_graph value low high) =
      check_min_max object value low high
  check_kind tree object count other_kind = []

  unfoldable pub check_object : Tree → ℕ → Option VtObject → List Violation
  unfolding check_children check_kind
  check_object tree id none = []
  check_object tree id (some o) =
      flag_if (not o.is_valid) (invalid_object id)
      ++ (check_children tree id o.children ++ check_kind tree id (length o.children) o.kind)

  -- The loop over the tree.
  unfoldable pub check_objects : Tree → Tree → List Violation
  unfolding check_object
  check_objects tree [] = []
  check_objects tree ((id, object) ∷ rest) = check_object tree id object ++ check_objects tree rest

  -- The exit code of `main`. The pool is `none` if `load` returns false; the levels are those of the
  -- messages that the parser has logged.
  unfoldable pub validate : ℕ → ℕ → List ℕ → Option Tree → ℕ
  unfolding check_objects complaints
  validate warning argc levels pool = if not (argc == 2) then 2 else elim pool [
    | none ↦ 1
    | some tree ↦ exit_code (is_empty (complaints warning levels ++ check_objects tree tree))
  ]
