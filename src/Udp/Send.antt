-- ===== src/Udp/Send.antt =====
-- `calculate_crc` and the frame that `send` builds.
use aog_task_controller.Prelude.{
  ℕ, zero, suc, ◌+◌, ◌≤◌, ◌<◌, ◌%◌, ◌≡◌, refl, List, [], ◌∷◌, none, some, arith, u8, length, get_or,
  drop, ap, subst, ◌∙◌, lt→ltb,
}
use aog_task_controller.Udp.{byte_at, crc_loop, calculate_crc}

abbrev pub sum : List ℕ → ℕ
sum [] = 0
sum (x ∷ xs) = x + sum xs

drop-get_or :
    (xs : List ℕ) (i : ℕ) → i < length xs → sum (drop i xs) ≡ get_or xs i 0 + sum (drop (suc i) xs)
drop-get_or [] i h = absurd (omega arith)
drop-get_or (x ∷ xs) zero h = refl
drop-get_or (x ∷ xs) (suc i) h = drop-get_or xs i (omega arith)

drop-length : (xs : List ℕ) → drop (length xs) xs ≡ []
drop-length [] = refl
drop-length (x ∷ xs) = drop-length xs

crc_loop_lem :
    (d i result : ℕ) (xs : List ℕ) (rounds : ℕ)
    → i + d ≡ length xs
    → d < rounds
    → length xs < 256
    → crc_loop rounds xs i result ≡ some ((result + sum (drop i xs)) % 256)
unfolding crc_loop
crc_loop_lem d i result xs zero e lt small = absurd (omega arith)
crc_loop_lem zero i result xs (suc rounds) e lt small =
    let here : length xs ≡ i = omega arith in
    ground (arith, ap sum (subst (λ n. drop n xs ≡ []) here (drop-length xs)))
crc_loop_lem (suc d) i result xs (suc rounds) e lt small =
    let next : u8 (i + 1) ≡ suc i = omega arith in
    let later =
      crc_loop_lem d (suc i) (result + get_or xs i 0) xs rounds (omega arith) (omega arith) small in
    rw (lt→ltb i (length xs) (omega arith), next, later)
      (ap some (ap (λ n. n % 256) (omega (arith, drop-get_or xs i (omega arith)))))

-- From 256 bytes on the 8-bit counter never reaches the length, so no number of rounds is enough.
crc_loop_endless :
    (rounds i result : ℕ) (xs : List ℕ)
    → i < 256
    → 256 ≤ length xs
    → crc_loop rounds xs i result ≡ none
unfolding crc_loop
crc_loop_endless zero i result xs small long = refl
crc_loop_endless (suc rounds) i result xs small long =
    rw (lt→ltb i (length xs) (omega arith))
      (crc_loop_endless rounds (u8 (i + 1)) (result + byte_at xs i) xs (omega arith) long)

-- Of less than 256 bytes the checksum is their sum modulo 256, for any number of rounds above that
-- of the bytes.
pub calculate_crc-sum :
    (bytes : List ℕ) (rounds : ℕ)
    → length bytes < 256
    → length bytes < rounds
    → calculate_crc rounds bytes ≡ some (sum bytes % 256)
unfolding calculate_crc
calculate_crc-sum bytes rounds small enough =
    crc_loop_lem (length bytes) 0 0 bytes rounds (omega arith) enough small
    ∙ ap some (ap (λ n. n % 256) (omega arith))

-- From 256 bytes on the 8-bit counter never reaches the length: the loop does not end, however many
-- the rounds.
pub calculate_crc_endless :
    (bytes : List ℕ) (rounds : ℕ) → 256 ≤ length bytes → calculate_crc rounds bytes ≡ none
unfolding calculate_crc
calculate_crc_endless bytes rounds long = crc_loop_endless rounds 0 0 bytes (omega arith) long
