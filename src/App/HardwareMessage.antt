-- ===== src/App/HardwareMessage.antt =====
-- `Application::send_hardware_message`: a text for the display of AOG, cut to 60 bytes between two
-- characters of UTF-8.
use aog_task_controller.Prelude.{
  ℕ, zero, suc, ◌/◌, ◌%◌, ◌≤◌, ◌<◌, ◌≡◌, refl, ap, ◌∙◌, sym, subst, ◌⊎◌, inl, inr, Bool, true,
  false, List, [], ◌∷◌, Option, none, some, arith, ltb, ◌==◌, if◌then◌else◌, if_true, if_false,
  Bool-cases, length, get_or, take, lt→ltb, ge→ltb, take_all,
}

-- `(c & 0xC0) == 0x80`
unfoldable pub is_continuation : ℕ → Bool
is_continuation c = (c / 64) % 4 == 2

-- The `while`, by its variable.
unfoldable pub back_up : List ℕ → ℕ → ℕ
back_up text zero = zero
back_up text (suc n) =
    let earlier = back_up text n in
    if is_continuation (get_or text (suc n) 0) then earlier else suc n

unfoldable pub text_length : List ℕ → ℕ
unfolding back_up
text_length text = if ltb 60 (length text) then back_up text 60 else length text

abbrev payload_of : ℕ → ℕ → List ℕ → Option (List ℕ)
payload_of duration color [] = none
payload_of duration color message = some (duration ∷ color ∷ message)

-- The payload of the packet 0xDD that is sent, if one is.
unfoldable pub hardware_message : List ℕ → ℕ → ℕ → Option (List ℕ)
unfolding text_length
hardware_message text duration color = payload_of duration color (take (text_length text) text)

le_suc-cases : (k n : ℕ) → k ≤ suc n → (k ≤ n) ⊎ (k ≡ suc n)
le_suc-cases k n h = ground arith

le-or-lt : (k n : ℕ) → (k ≤ n) ⊎ (n < k)
le-or-lt k n = ground arith

-- Where the loop stops.
abbrev IsBoundary : List ℕ → ℕ → ℕ → Type 0
IsBoundary text n r =
    (r ≤ n)
    × ((r ≡ 0) ⊎ (is_continuation (get_or text r 0) ≡ false))
    × ((k : ℕ) → r < k → k ≤ n → is_continuation (get_or text k 0) ≡ true)

back_up-IsBoundary : (text : List ℕ) (n : ℕ) → IsBoundary text n (back_up text n)
unfolding back_up
back_up-IsBoundary text zero =
    (omega arith, inl refl, λ k above below. absurd (omega (arith, above, below)))
back_up-IsBoundary text (suc n) = elim (Bool-cases (is_continuation (get_or text (suc n) 0))) [
  | inl inside ↦
      let (small, stop, between) = back_up-IsBoundary text n in
      subst (IsBoundary text (suc n))
        (sym (if_true (is_continuation (get_or text (suc n) 0)) (back_up text n) (suc n) inside))
        (
          omega (arith, small),
          stop,
          λ k above below. elim (le_suc-cases k n below) [
            | inl lower ↦ between k above lower
            | inr last ↦ subst (λ x. is_continuation (get_or text x 0) ≡ true) (sym last) inside
          ],
        )
  | inr start ↦
      subst (IsBoundary text (suc n))
        (sym (if_false (is_continuation (get_or text (suc n) 0)) (back_up text n) (suc n) start))
        (omega arith, inr start, λ k above below. absurd (omega (arith, above, below)))
]

payload_of-take :
    (duration color n : ℕ) (text : List ℕ)
    → 0 < n
    → 0 < length text
    → payload_of duration color (take n text) ≡ some (duration ∷ color ∷ take n text)
payload_of-take duration color n [] h inside = absurd (omega (arith, inside))
payload_of-take duration color zero (c ∷ rest) h inside = absurd (omega (arith, h))
payload_of-take duration color (suc n) (c ∷ rest) h inside = refl

-- Where a character starts among the bytes 57 to 60, the loop stops there or after it.
back_up-ge :
    (text : List ℕ) (k : ℕ)
    → 57 ≤ k
    → k ≤ 60
    → is_continuation (get_or text k 0) ≡ false
    → (57 ≤ back_up text 60) × (is_continuation (get_or text (back_up text 60) 0) ≡ false)
back_up-ge text k low high start =
    let (small, stop, between) = back_up-IsBoundary text 60 in
    let reached : k ≤ back_up text 60 = elim (le-or-lt k (back_up text 60)) [
      | inl up ↦ up
      | inr past ↦ absurd (ground (arith, between k past high))
    ] in
    (
      omega (arith, reached, low),
      elim stop [ inl zero_here ↦ absurd (omega (arith, zero_here, reached, low)) | inr at ↦ at ],
    )

-- A text of 1 to 60 bytes is sent whole.
pub hardware_message_whole :
    (text : List ℕ) (duration color : ℕ)
    → 0 < length text
    → length text ≤ 60
    → hardware_message text duration color ≡ some (duration ∷ color ∷ text)
unfolding hardware_message text_length
hardware_message_whole text duration color some_text fits =
    let n =
      if_false (ltb 60 (length text)) (back_up text 60) (length text)
        (ge→ltb 60 (length text) fits) in
    ap (λ m. payload_of duration color (take m text)) n
    ∙ payload_of-take duration color (length text) text some_text some_text
    ∙ ap (λ t. some (duration ∷ color ∷ t)) (take_all (length text) text (omega arith))

-- Of a text longer than 60 bytes, where one of the bytes 57 to 60 starts a character, as it does in
-- UTF-8, the first n bytes are sent, for an n from 57 to 60 such that byte n, the first that is left
-- out, starts a character.
pub hardware_message_cut :
    (text : List ℕ) (duration color k : ℕ)
    → 60 < length text
    → 57 ≤ k
    → k ≤ 60
    → is_continuation (get_or text k 0) ≡ false
    → (n : ℕ) × (hardware_message text duration color ≡ some (duration ∷ color ∷ take n text))
      × (57 ≤ n)
      × (n ≤ 60)
      × (is_continuation (get_or text n 0) ≡ false)
unfolding hardware_message text_length
hardware_message_cut text duration color k long low high start =
    let n =
      if_true (ltb 60 (length text)) (back_up text 60) (length text)
        (lt→ltb 60 (length text) long) in
    let (reached, stop) = back_up-ge text k low high start in
    (
      back_up text 60,
      ap (λ m. payload_of duration color (take m text)) n
          ∙ payload_of-take duration color (back_up text 60) text (omega (arith, reached))
              (omega (arith, long)),
      reached,
      (back_up-IsBoundary text 60).0,
      stop,
    )
