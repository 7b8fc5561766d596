-- ===== src/App/Heartbeat/Packing.antt =====
-- The bytes of the heartbeat hold the state of every section.
use aog_task_controller.Prelude.{
  ℕ, zero, suc, ◌+◌, ◌*◌, ◌-◌, ◌/◌, ◌^◌, ◌≤◌, ◌<◌, ◌≡◌, refl, ap, ◌∙◌, sym, inl, inr, Bool, true,
  false, ◌&&◌, List, [], ◌∷◌, some, arith, ltb, if◌then◌else◌, if_true, if_false, Bool-cases,
  to_nat, u8, bit_or, length, get_or, ltb→lt, ltb→ge, lt→ltb, ge→ltb,
}
use aog_task_controller.Client.{ClientState}
use aog_task_controller.App.{bit}
use aog_task_controller.App.Heartbeat.{
  is_working, pack_bit, pack_byte, pack_bytes, consed, heartbeat,
}
use aog_task_controller.App.Heartbeat.Bits.{bits, bits-read, bits-suc}

module _ {P : Type 0} (s : ClientState P) (fits : s.number_of_sections < 256) where
  -- Bit k of the byte that starts at a section.
  abbrev is_set : ℕ → ℕ → Bool
  is_set start k = ltb (start + k) s.number_of_sections && is_working s (start + k)

  abbrev reached : ℕ → ℕ
  reached section = if ltb section s.number_of_sections then section else s.number_of_sections

  pack_bit_inside :
      (start i : ℕ)
      → ltb (start + i) s.number_of_sections ≡ true
      → pack_bit s i (reached (start + i)) (bits (is_set start) i)
        ≡ (reached (start + suc i), bits (is_set start) (suc i))
  unfolding pack_bit
  pack_bit_inside start i inside =
      let n = s.number_of_sections in
      let b = bits (is_set start) i in
      let small = ltb→lt (start + i) n inside in
      let here : reached (start + i) ≡ start + i =
        if_true (ltb (start + i) n) (start + i) n inside in
      let next : u8 (start + i + 1) ≡ reached (start + suc i) = ground (arith, small, fits) in
      let same : is_working s (start + i) ≡ is_set start i =
        sym (ap (λ c. c && is_working s (start + i)) inside) in
      let packed = ap (λ w. bit_or b (to_nat w * 2 ^ i)) same ∙ bits-suc (is_set start) i in
      let new : ℕ × ℕ =
        (u8 (start + i + 1), bit_or b (to_nat (is_working s (start + i)) * 2 ^ i)) in
      ap (λ x. pack_bit s i x b) here ∙ if_true (ltb (start + i) n) new (start + i, b) inside ∙ λ j.
      (next j, packed j)

  pack_bit_past :
      (start i : ℕ)
      → ltb (start + i) s.number_of_sections ≡ false
      → pack_bit s i (reached (start + i)) (bits (is_set start) i)
        ≡ (reached (start + suc i), bits (is_set start) (suc i))
  unfolding pack_bit
  pack_bit_past start i past =
      let n = s.number_of_sections in
      let b = bits (is_set start) i in
      let beyond = ltb→ge (start + i) n past in
      let here : reached (start + i) ≡ n = if_false (ltb (start + i) n) (start + i) n past in
      let next : n ≡ reached (start + suc i) = sym (
        if_false (ltb (start + suc i) n) (start + suc i) n
          (ge→ltb (start + suc i) n (omega (arith, beyond)))) in
      let clear : is_set start i ≡ false = ap (λ c. c && is_working s (start + i)) past in
      let packed : b ≡ bits (is_set start) (suc i) =
        unfold bits in sym (ap (λ w. b + to_nat w * 2 ^ i) clear ∙ omega arith) in
      let new : ℕ × ℕ = (u8 (n + 1), bit_or b (to_nat (is_working s n) * 2 ^ i)) in
      ap (λ x. pack_bit s i x b) here
      ∙ if_false (ltb n n) new (n, b) (ge→ltb n n (omega arith))
      ∙ λ j. (next j, packed j)

  pack_byte-bits :
      (start rounds i : ℕ)
      → pack_byte s rounds i (reached (start + i)) (bits (is_set start) i)
        ≡ (reached (start + (i + rounds)), bits (is_set start) (i + rounds))
  unfolding pack_byte
  pack_byte-bits start zero i = let e : i + 0 ≡ i = omega arith in rw e refl
  pack_byte-bits start (suc rounds) i =
      let e : i + suc rounds ≡ suc i + rounds = omega arith in
      let next : i + 1 ≡ suc i = omega arith in
      let step : pack_bit s i (reached (start + i)) (bits (is_set start) i)
          ≡ (reached (start + suc i), bits (is_set start) (suc i)) =
        elim (Bool-cases (ltb (start + i) s.number_of_sections)) [
          | inl inside ↦ pack_bit_inside start i inside
          | inr past ↦ pack_bit_past start i past
        ] in
      ap (λ r. pack_byte s rounds (i + 1) r.0 r.1) step
      ∙ ap (λ k. pack_byte s rounds k (reached (start + suc i)) (bits (is_set start) (suc i))) next
      ∙ pack_byte-bits start rounds (suc i)
      ∙ ap (λ k. (reached (start + k), bits (is_set start) k)) (sym e)

  pack_byte_whole :
      (start : ℕ)
      → ltb start s.number_of_sections ≡ true
      → pack_byte s 8 0 start 0 ≡ (reached (start + 8), bits (is_set start) 8)
  pack_byte_whole start inside =
      let n = s.number_of_sections in
      let e : start + 0 ≡ start = omega arith in
      let none_yet : bits (is_set start) 0 ≡ 0 = unfold bits in refl in
      let here : reached (start + 0) ≡ start =
        ap reached e ∙ if_true (ltb start n) start n inside in
      ap (λ x. pack_byte s 8 0 x 0) (sym here)
      ∙ ap (pack_byte s 8 0 (reached (start + 0))) (sym none_yet)
      ∙ pack_byte-bits start 8 0

  -- What the bytes from a section on are to hold.
  abbrev IsPacked : ℕ → List ℕ → Type 0
  IsPacked start bytes =
      (length bytes ≡ (s.number_of_sections - start + 7) / 8)
      × ((a i : ℕ)
          → i < 8
          → start + (8 * a + i) < s.number_of_sections
          → bit (get_or bytes a 0) i ≡ is_working s (start + (8 * a + i)))

  cons_count :
      (start count : ℕ)
      → ltb start s.number_of_sections ≡ true
      → count ≡ (s.number_of_sections - reached (start + 8) + 7) / 8
      → suc count ≡ (s.number_of_sections - start + 7) / 8
  cons_count start count inside same = ground (arith, ltb→lt start s.number_of_sections inside)

  cons_state :
      (start : ℕ) (rest : List ℕ)
      → ((a i : ℕ)
          → i < 8
          → reached (start + 8) + (8 * a + i) < s.number_of_sections
          → bit (get_or rest a 0) i ≡ is_working s (reached (start + 8) + (8 * a + i)))
      → (a i : ℕ) → i < 8
      → start + (8 * a + i) < s.number_of_sections
      → bit (get_or (bits (is_set start) 8 ∷ rest) a 0) i ≡ is_working s (start + (8 * a + i))
  cons_state start rest states zero i small below =
      let n = s.number_of_sections in
      let e : 8 * zero + i ≡ i = omega arith in
      let inside = lt→ltb (start + i) n (omega (arith, below)) in
      bits-read (is_set start) 8 i small
      ∙ ap (λ c. c && is_working s (start + i)) inside
      ∙ ap (λ k. is_working s (start + k)) (sym e)
  cons_state start rest states (suc a) i small below =
      let n = s.number_of_sections in
      let next : reached (start + 8) ≡ start + 8 =
        if_true (ltb (start + 8) n) (start + 8) n (lt→ltb (start + 8) n (omega (arith, below))) in
      let e : reached (start + 8) + (8 * a + i) ≡ start + (8 * suc a + i) = omega (arith, next) in
      states a i small (omega (arith, e, below)) ∙ ap (is_working s) e

  cons-IsPacked :
      (start : ℕ) (rest : List ℕ)
      → ltb start s.number_of_sections ≡ true
      → IsPacked (reached (start + 8)) rest
      → IsPacked start (bits (is_set start) 8 ∷ rest)
  cons-IsPacked start rest inside (count, states) = (
    cons_count start (length rest) inside count,
    λ a i small below. cons_state start rest states a i small below,
  )

  reached_le : (section : ℕ) → reached section ≤ s.number_of_sections
  reached_le section = ground arith

  reached_enough :
      (start rounds : ℕ)
      → start < s.number_of_sections
      → s.number_of_sections + 8 ≤ start + 8 * suc rounds
      → s.number_of_sections + 8 ≤ reached (start + 8) + 8 * rounds
  reached_enough start rounds small enough = ground arith

  pack_bytes-IsPacked :
      (rounds start : ℕ)
      → start ≤ s.number_of_sections
      → s.number_of_sections + 8 ≤ start + 8 * rounds
      → (bytes : List ℕ) × (pack_bytes s rounds start ≡ some bytes) × IsPacked start bytes
  unfolding pack_bytes
  pack_bytes-IsPacked zero start low enough = absurd (omega (arith, low, enough))
  pack_bytes-IsPacked (suc rounds) start low enough =
      let n = s.number_of_sections in
      elim (Bool-cases (ltb start n)) [
        | inr done ↦
            let here = ltb→ge start n done in
            (
              [],
              if_false (ltb start n) _ (some []) done,
              (omega (arith, here), λ a i small below. absurd (omega (arith, here, below))),
            )
        | inl inside ↦
            let small = ltb→lt start n inside in
            let next = reached (start + 8) in
            let (rest, later, packed) =
              pack_bytes-IsPacked rounds next (reached_le (start + 8))
                (reached_enough start rounds small enough) in
            let byte = bits (is_set start) 8 in
            (
              byte ∷ rest,
              if_true (ltb start n) _ (some []) inside
                  ∙ ap (λ r. consed r.1 (pack_bytes s rounds r.0)) (pack_byte_whole start inside)
                  ∙ ap (consed byte) later,
              cons-IsPacked start rest inside packed,
            )
      ]

  -- For a client whose number of sections fits a byte, 33 rounds are enough: the payload says whether
  -- section control is on and how many sections there are, has one more byte for each eight sections
  -- or part of them, and bit i of byte a of these is set exactly if section 8 a + i is working.
  pub heartbeat_states :
      (rounds : ℕ)
      → 33 ≤ rounds
      → (bytes : List ℕ) × (heartbeat rounds s
          ≡ some (to_nat s.section_control_enabled ∷ s.number_of_sections ∷ bytes))
        × (length bytes ≡ (s.number_of_sections + 7) / 8)
        × ((a i : ℕ)
            → i < 8
            → 8 * a + i < s.number_of_sections
            → bit (get_or bytes a 0) i ≡ is_working s (8 * a + i))
  unfolding heartbeat
  heartbeat_states rounds enough =
      let (bytes, packed, (count, states)) =
        pack_bytes-IsPacked rounds 0 (omega arith) (omega (arith, fits, enough)) in
      (
        bytes,
        ap (λ r. consed (to_nat s.section_control_enabled) (consed s.number_of_sections r)) packed,
        omega (arith, count),
        λ a i small below.
            let e : 0 + (8 * a + i) ≡ 8 * a + i = omega arith in
            states a i small (omega (arith, below)) ∙ ap (is_working s) e,
      )
