-- ===== src/App/Screen/Sections.antt =====
-- The text of the section map: one character for each section, with one character between two.
use aog_task_controller.Prelude.{
  ℕ, zero, suc, ◌+◌, ◌*◌, ◌%◌, ◌<◌, ◌≡◌, refl, ap, ◌∙◌, List, [], ◌∷◌, arith, ltb, ◌==◌,
  if◌then◌else◌, length, get_or, ne→==,
}
use aog_task_controller.Prelude.Map.{Map}
use aog_task_controller.Client.{ClientState, get_section_actual_state}
use aog_task_controller.Client.SectionState
use aog_task_controller.App.Screen.{section_char, section_chars, section_map, separator}

-- The character between two sections: a line feed before every sixteenth, else a space.
abbrev pub between : ℕ → ℕ
between section = if section % 16 == 0 then 10 else 32

-- What the text of the sections behind the first looks like.
record IsLaidOut {P : Type 0} (s : ClientState P) (rounds section : ℕ) (text : List ℕ)
    : Type 0 where
  pub size : length text ≡ 2 * rounds
  pub chars : (k : ℕ) → k < rounds → get_or text (2 * k + 1) 0 ≡ section_char s (section + k)
  pub gaps : (k : ℕ) → k < rounds → get_or text (2 * k) 0 ≡ between (section + k)

module _ {P : Type 0} (s : ClientState P) where
  separator-suc : (p : ℕ) → separator (suc p) ≡ between (suc p) ∷ []
  separator-suc p = rw (ne→== (suc p) 0 (λ h. omega (arith, h))) refl

  cons-IsLaidOut :
      (rounds p : ℕ) (text : List ℕ)
      → IsLaidOut s rounds (suc (suc p)) text
      → IsLaidOut s (suc rounds) (suc p) (between (suc p) ∷ section_char s (suc p) ∷ text)
  cons-IsLaidOut rounds p text t = record {
    size = omega (arith, t.size);
    chars = chars_cons rounds p text t.chars;
    gaps = gaps_cons rounds p text t.gaps;
  }
    where
      chars_cons :
          (rounds p : ℕ) (text : List ℕ)
          → ((k : ℕ) → k < rounds → get_or text (2 * k + 1) 0 ≡ section_char s (suc (suc p) + k))
          → (k : ℕ) → k < suc rounds
          → get_or (between (suc p) ∷ section_char s (suc p) ∷ text) (2 * k + 1) 0
            ≡ section_char s (suc p + k)
      chars_cons rounds p text t zero h =
          let e : suc p ≡ suc p + 0 = omega arith in ap (section_char s) e
      chars_cons rounds p text t (suc k) h =
          let e : 2 * suc k + 1 ≡ suc (suc (2 * k + 1)) = omega arith in
          let f : suc (suc p) + k ≡ suc p + suc k = omega arith in
          ap (λ n. get_or (between (suc p) ∷ section_char s (suc p) ∷ text) n 0) e
          ∙ t k (omega (arith, h))
          ∙ ap (section_char s) f

      gaps_cons :
          (rounds p : ℕ) (text : List ℕ)
          → ((k : ℕ) → k < rounds → get_or text (2 * k) 0 ≡ between (suc (suc p) + k))
          → (k : ℕ) → k < suc rounds
          → get_or (between (suc p) ∷ section_char s (suc p) ∷ text) (2 * k) 0 ≡ between (suc p + k)
      gaps_cons rounds p text t zero h = let e : suc p ≡ suc p + 0 = omega arith in ap between e
      gaps_cons rounds p text t (suc k) h =
          let e : 2 * suc k ≡ suc (suc (2 * k)) = omega arith in
          let f : suc (suc p) + k ≡ suc p + suc k = omega arith in
          ap (λ n. get_or (between (suc p) ∷ section_char s (suc p) ∷ text) n 0) e
          ∙ t k (omega (arith, h))
          ∙ ap between f

  section_chars-IsLaidOut :
      (rounds p : ℕ) → IsLaidOut s rounds (suc p) (section_chars s rounds (suc p))
  unfolding section_chars
  section_chars-IsLaidOut zero p = record {
    size = omega arith;
    chars = λ k h. absurd (omega (arith, h));
    gaps = λ k h. absurd (omega (arith, h));
  }
  section_chars-IsLaidOut (suc rounds) p =
      let next : suc p + 1 ≡ suc (suc p) = omega arith in
      rw (separator-suc p, next)
        (cons-IsLaidOut rounds p (section_chars s rounds (suc (suc p)))
          (section_chars-IsLaidOut rounds (suc p)))

  -- The number of sections that the map shows.
  abbrev pub shown : ℕ
  shown = if ltb 64 s.number_of_sections then 64 else s.number_of_sections

  first_chars :
      (rounds : ℕ) (text : List ℕ)
      → ((k : ℕ) → k < rounds → get_or text (2 * k + 1) 0 ≡ section_char s (suc 0 + k))
      → (i : ℕ) → i < suc rounds
      → get_or (section_char s 0 ∷ text) (2 * i) 0 ≡ section_char s i
  first_chars rounds text t zero h = refl
  first_chars rounds text t (suc k) h =
      let e : 2 * suc k ≡ suc (2 * k + 1) = omega arith in
      let f : suc 0 + k ≡ suc k = omega arith in
      ap (λ n. get_or (section_char s 0 ∷ text) n 0) e
      ∙ t k (omega (arith, h))
      ∙ ap (section_char s) f

  shown_first :
      (count : ℕ)
      → 0 < count
      → (length (section_chars s count 0) + 1 ≡ 2 * count)
        × ((i : ℕ) → i < count → get_or (section_chars s count 0) (2 * i) 0 ≡ section_char s i)
        × ((i : ℕ)
            → suc i < count
            → get_or (section_chars s count 0) (2 * i + 1) 0 ≡ between (suc i))
  unfolding section_chars
  shown_first zero h = absurd (omega (arith, h))
  shown_first (suc rounds) h =
      let t = section_chars-IsLaidOut rounds 0 in
      let text = section_chars s rounds 1 in
      (
        omega (arith, t.size),
        first_chars rounds text t.chars,
        λ i below.
            let e : 2 * i + 1 ≡ suc (2 * i) = omega arith in
            ap (λ n. get_or (section_char s 0 ∷ text) n 0) e
            ∙ t.gaps i (omega (arith, below))
            ∙ ap between (omega arith),
      )

  -- The map of the first client, if it has sections: the first 64 of them are shown, each by one
  -- character, every other of the text: '1' if `get_section_actual_state` says that the section is on,
  -- and '0' if not. Between two stands a space, and a line feed after every sixteen.
  pub section_map_chars :
      (client : ℕ) (rest : Map (ClientState P))
      → 0 < s.number_of_sections
      → let text = section_map ((client, s) ∷ rest) in
        (length text + 1 ≡ 2 * shown)
        × ((i : ℕ)
            → i < shown
            → get_or text (2 * i) 0
              ≡ (if get_section_actual_state s i == SectionState.on then b'1' else b'0'))
        × ((i : ℕ) → suc i < shown → get_or text (2 * i + 1) 0 ≡ between (suc i))
  unfolding section_map section_char
  section_map_chars client rest some_sections =
      let positive : 0 < shown = ground (arith, some_sections) in
      rw (ne→== shown 0 (λ h. omega (arith, h, positive))) (shown_first shown positive)
