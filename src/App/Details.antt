-- ===== src/App/Details.antt =====
-- `Application::derive_implement_details` of src/app.cpp: the name, the number of sections, the width and
-- the offset of an implement. The geometry comes from the helper of the CAN stack; a length is the number
-- of the 32 bits of a signed one, in mm. The formatting of a floating-point number is a parameter.
use aog_task_controller.Prelude.{
  ℕ, ◌+◌, ◌^◌, Bool, true, false, ◌&&◌, ◌||◌, List, [], ◌∷◌, ◌++◌, Option, none, some, ltb,
  if◌then◌else◌, u32,
}
use aog_task_controller.Prelude.Text.{codes}
use aog_task_controller.Client.{ClientState}
use aog_task_controller.App.Screen.Status.{ImplementDetails}

pub record SubBoomGeometry : Type 0 where
  pub section_widths : List (Option ℕ)
  pub width_mm : Option ℕ

pub record BoomGeometry : Type 0 where
  pub x_offset_mm : Option ℕ
  pub y_offset_mm : Option ℕ
  pub boom_section_widths : List (Option ℕ)
  pub sub_booms : List SubBoomGeometry

-- `totalWidthMillimetres += width`, if there is one.
abbrev plus_width : ℕ → Option ℕ → ℕ
plus_width total none = total
plus_width total (some width) = u32 (total + width)

unfoldable pub plus_widths : ℕ → List (Option ℕ) → ℕ
plus_widths total [] = total
plus_widths total (width ∷ rest) = plus_widths (plus_width total width) rest

abbrev pub no_sections : List (Option ℕ) → Bool
no_sections [] = true
no_sections (width ∷ rest) = false

unfoldable pub plus_sub_booms : ℕ → List SubBoomGeometry → ℕ
unfolding plus_widths
plus_sub_booms total [] = total
plus_sub_booms total (s ∷ rest) =
    let own = if no_sections s.section_widths then plus_width total s.width_mm else total in
    plus_sub_booms (plus_widths own s.section_widths) rest

unfoldable pub total_width : ℕ → List BoomGeometry → ℕ
unfolding plus_widths plus_sub_booms
total_width total [] = total
total_width total (b ∷ rest) =
    total_width (plus_sub_booms (plus_widths total b.boom_section_widths) b.sub_booms) rest

-- `fixed` formats a length in metres, with two digits, and `signed` also with its sign.
abbrev pub offset_part : (ℕ → List ℕ) → List ℕ → Option ℕ → List ℕ
offset_part signed axis none = axis ++ codes ":n/a"
offset_part signed axis (some mm) = axis ++ (codes ":" ++ signed mm)

abbrev is_given : Option ℕ → Bool
is_given none = false
is_given (some mm) = true

-- The text for the first boom.
unfoldable pub boom_offset_of : (ℕ → List ℕ) → List BoomGeometry → List ℕ
boom_offset_of signed [] = []
boom_offset_of signed (b ∷ rest) =
    if is_given b.x_offset_mm || is_given b.y_offset_mm
    then offset_part signed (codes "X") b.x_offset_mm
      ++ (codes " " ++ offset_part signed (codes "Y") b.y_offset_mm)
    else []

abbrev or_no_name : Option (List ℕ) → List ℕ
or_no_name none = codes "No implement"
or_no_name (some []) = codes "No implement"
or_no_name (some (c ∷ rest)) = c ∷ rest

-- `designator` is that of object 0 of the pool, if there is such an object.
unfoldable pub derive_implement_details :
    {P : Type 0}
    → (fixed signed : ℕ → List ℕ) → (designator : Option (List ℕ)) → List BoomGeometry
    → ClientState P
    → ImplementDetails
unfolding boom_offset_of total_width
derive_implement_details fixed signed designator booms s =
    let total = total_width 0 booms in
    record {
      display_name = or_no_name designator;
      sections = s.number_of_sections;
      width_text = if ltb 0 total && ltb total (2 ^ 31) then fixed total else [];
      boom_offset_text = boom_offset_of signed booms;
    }
