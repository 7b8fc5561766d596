-- ===== src/Client/Invariant.antt =====
-- What holds of a client's state between two calls, kept by each of its methods.
use aog_task_controller.Prelude.{
  ℕ, zero, suc, ◌≤◌, ◌<◌, ◌≡◌, refl, inl, inr, List, [], ◌∷◌, some, arith, ltb, length, get_or, set,
  resize, length-set, length-resize, Bool-cases, ltb→lt, ◌&&◌, ◌∙◌,
}
use aog_task_controller.Prelude.Map.{Map, find, find-assign, assign}
use aog_task_controller.Client.{
  ClientState, new_state, set_number_of_sections, set_section_setpoint_state,
  set_section_actual_state, set_element_number_for_section,
}

-- Every value fits its two bits of a condensed message.
abbrev pub AllStates : List ℕ → Type 0
AllStates [] = Unit {0}
AllStates (x ∷ xs) = (x < 4) × AllStates xs

pub AllStates-set : (xs : List ℕ) (i v : ℕ) → v < 4 → AllStates xs → AllStates (set xs i v)
AllStates-set [] i v h a = tt
AllStates-set (x ∷ xs) zero v h a = (h, a.1)
AllStates-set (x ∷ xs) (suc i) v h a = (a.0, AllStates-set xs i v h a.1)

pub AllStates-resize : (xs : List ℕ) (n : ℕ) → AllStates xs → AllStates (resize xs n 0)
AllStates-resize xs zero a = tt
AllStates-resize [] (suc n) a = (omega arith, AllStates-resize [] n tt)
AllStates-resize (x ∷ xs) (suc n) a = (a.0, AllStates-resize xs n a.1)

pub get_or-AllStates : (xs : List ℕ) (i d : ℕ) → AllStates xs → d < 4 → get_or xs i d < 4
get_or-AllStates [] i d a h = h
get_or-AllStates (x ∷ xs) zero d a h = a.0
get_or-AllStates (x ∷ xs) (suc i) d a h = get_or-AllStates xs i d a.1 h

-- The vectors have one entry for each of the `n` sections, every state is one of four, and the reverse
-- map leads to sections that there are.
pub record ValidSections (n : ℕ) (setpoints actuals elements : List ℕ) (reverse : Map ℕ)
    : Type 0 where
  pub count_fits : n < 256
  pub setpoint_length : length setpoints ≡ n
  pub actual_length : length actuals ≡ n
  pub element_length : length elements ≡ n
  pub setpoint_states : AllStates setpoints
  pub actual_states : AllStates actuals
  pub reverse_in_range : (e section : ℕ) → find e reverse ≡ some section → section < n

abbrev pub IsValid : {P : Type 0} → ClientState P → Type 0
IsValid s =
    ValidSections s.number_of_sections s.section_setpoint_states s.section_actual_states
      s.section_to_element_number s.element_to_section

module _ {n : ℕ} {sp ac el : List ℕ} {rev : Map ℕ} (v : ValidSections n sp ac el rev) where
  ValidSections-setpoints :
      (sp' : List ℕ) → length sp' ≡ length sp → AllStates sp' → ValidSections n sp' ac el rev
  ValidSections-setpoints sp' same states = record {
    count_fits = v.count_fits;
    setpoint_length = same ∙ v.setpoint_length;
    actual_length = v.actual_length;
    element_length = v.element_length;
    setpoint_states = states;
    actual_states = v.actual_states;
    reverse_in_range = v.reverse_in_range;
  }

  ValidSections-actuals :
      (ac' : List ℕ) → length ac' ≡ length ac → AllStates ac' → ValidSections n sp ac' el rev
  ValidSections-actuals ac' same states = record {
    count_fits = v.count_fits;
    setpoint_length = v.setpoint_length;
    actual_length = same ∙ v.actual_length;
    element_length = v.element_length;
    setpoint_states = v.setpoint_states;
    actual_states = states;
    reverse_in_range = v.reverse_in_range;
  }

  ValidSections-elements :
      (el' : List ℕ) (element i : ℕ)
      → length el' ≡ length el
      → i < n
      → ValidSections n sp ac el' (assign element i rev)
  ValidSections-elements el' element i same inside = record {
    count_fits = v.count_fits;
    setpoint_length = v.setpoint_length;
    actual_length = v.actual_length;
    element_length = same ∙ v.element_length;
    setpoint_states = v.setpoint_states;
    actual_states = v.actual_states;
    reverse_in_range =
        λ e section h. ground (arith, find-assign element e i rev, v.reverse_in_range e section);
  }

module _ {P : Type 0} where
  pub new_state-IsValid : (pool : P) → IsValid (new_state pool)
  unfolding new_state find
  new_state-IsValid pool = record {
    count_fits = omega arith;
    setpoint_length = refl;
    actual_length = refl;
    element_length = refl;
    setpoint_states = tt;
    actual_states = tt;
    reverse_in_range = λ e section h. absurd (ground arith);
  }

  -- Growing keeps the reverse map in range.
  pub set_number_of_sections-IsValid :
      (s : ClientState P) (n : ℕ)
      → n < 256
      → s.number_of_sections ≤ n
      → IsValid s
      → IsValid (set_number_of_sections s n)
  unfolding set_number_of_sections
  set_number_of_sections-IsValid s n small grows v = record {
    count_fits = small;
    setpoint_length = length-resize s.section_setpoint_states n 0;
    actual_length = length-resize s.section_actual_states n 0;
    element_length = length-resize s.section_to_element_number n 0;
    setpoint_states = AllStates-resize s.section_setpoint_states n v.setpoint_states;
    actual_states = AllStates-resize s.section_actual_states n v.actual_states;
    reverse_in_range = λ e section h. omega (arith, v.reverse_in_range e section h);
  }

  pub set_section_setpoint_state-IsValid :
      (s : ClientState P) (i state : ℕ)
      → state < 4
      → IsValid s
      → IsValid (set_section_setpoint_state s i state)
  unfolding set_section_setpoint_state
  set_section_setpoint_state-IsValid s i state small v =
      elim (Bool-cases (ltb i s.number_of_sections)) [
        | inl inside ↦ rw inside (
            ValidSections-setpoints v _ (length-set s.section_setpoint_states i state)
              (AllStates-set s.section_setpoint_states i state small v.setpoint_states))
        | inr outside ↦ rw outside v
      ]

  pub set_section_actual_state-IsValid :
      (s : ClientState P) (i state : ℕ)
      → state < 4
      → IsValid s
      → IsValid (set_section_actual_state s i state)
  unfolding set_section_actual_state
  set_section_actual_state-IsValid s i state small v =
      elim (Bool-cases (ltb i s.number_of_sections)) [
        | inl inside ↦ rw inside (
            ValidSections-actuals v _ (length-set s.section_actual_states i state)
              (AllStates-set s.section_actual_states i state small v.actual_states))
        | inr outside ↦ rw outside v
      ]

  pub set_element_number_for_section-IsValid :
      (s : ClientState P) (i element : ℕ)
      → IsValid s
      → IsValid (set_element_number_for_section s i element)
  unfolding set_element_number_for_section
  set_element_number_for_section-IsValid s i element v =
      elim (Bool-cases (ltb i s.number_of_sections && ltb i (length s.section_to_element_number))) [
        | inl inside ↦ rw inside (
            ValidSections-elements v _ element i (length-set s.section_to_element_number i element)
              (ltb→lt i s.number_of_sections (ground arith)))
        | inr outside ↦ rw outside v
      ]
