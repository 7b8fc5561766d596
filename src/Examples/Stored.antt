-- ===== src/Examples/Stored.antt =====
-- Settings, with documents that are lists of members and texts that are documents.
use aog_task_controller.Prelude.{
  ℕ, ◌≤◌, ◌≡◌, refl, sym, Bool, true, false, List, [], ◌∷◌, Option, none, some, arith,
}
use aog_task_controller.Prelude.Map.{Map, find, assign, find-assign, find-assign_self}
use aog_task_controller.Settings.{
  JsonLibrary, World, succeeds, cannot_rename, default_settings, tecu, save, load, set_boolean,
  write_text,
}
use aog_task_controller.Settings.Atomic.{IsSetFlag, set_boolean-IsSetFlag}
use aog_task_controller.Settings.Version.{loads, sets_tc_version, changes, changes-IsVersion}
use aog_task_controller.Settings.RoundTrip.{IsJson, load-save}

pub data Value : Type 0 where
  ints : ℕ → ℕ → ℕ → Value
  bool : Bool → Value
  int : ℕ → Value
  string : List ℕ → Value

abbrev pub to_ints : Value → Option (ℕ × ℕ × ℕ)
to_ints (ints a b c) = some (a, b, c)
to_ints _ = none

abbrev pub to_bool : Value → Option Bool
to_bool (bool b) = some b
to_bool _ = none

abbrev pub to_int : Value → Option ℕ
to_int (int n) = some n
to_int _ = none

abbrev pub to_string : Value → Option (List ℕ)
to_string (string s) = some s
to_string _ = none

abbrev pub json : JsonLibrary
json = record {
  Json = Map Value;
  Node = Value;
  Text = Map Value;
  null = [];
  at = λ j k. find k j;
  put = λ j k v. assign k v j;
  of_subnet = λ s. ints s.ip_0 s.ip_1 s.ip_2;
  of_bool = bool;
  of_byte = int;
  of_string = string;
  as_ints = to_ints;
  as_bool = to_bool;
  as_int = to_int;
  as_string = to_string;
  dump = some;
  parse = some;
}

json-IsJson : IsJson json
json-IsJson = record {
  at_put = λ j k n. find-assign_self k n j;
  at_put_other = λ j k l n apart. ground (arith, find-assign k l n j);
  as_ints_of = λ s. refl;
  as_bool_of = λ b. refl;
  as_int_of = λ n h. refl;
  as_string_of = λ s. refl;
  parse_dump = λ j t e. sym e;
}

abbrev pub world : World json
world = record {
  settings = record default_settings { tecu_enabled = false; tc_version = 4 };
  file = none;
}

saved : (save json succeeds world).1 ≡ some true
unfolding save write_text
saved = refl

load-save_example :
    (load json true true
      (record (save json succeeds world).0 { settings = default_settings })).0.settings
    ≡ world.settings
load-save_example =
    load-save json json-IsJson succeeds world default_settings
      (record {
        first = omega arith;
        second = omega arith;
        third = omega arith;
        version = omega arith;
      })
      saved

set_boolean-IsSetFlag_example :
    IsSetFlag json tecu true true world (set_boolean json tecu true true cannot_rename world)
set_boolean-IsSetFlag_example = set_boolean-IsSetFlag json tecu true true cannot_rename world

changes-IsVersion_example :
    (changes json world
      (sets_tc_version 9 true succeeds ∷ loads true true ∷ [])).settings.tc_version
    ≤ 4
changes-IsVersion_example =
    changes-IsVersion json world (sets_tc_version 9 true succeeds ∷ loads true true ∷ [])
      (omega arith)
