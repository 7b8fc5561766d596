-- ===== src/App/Cyclic/Speed.antt =====
-- The machine speed: a conversion of units in integers.
use aog_task_controller.Prelude.{ℕ, ◌+◌, ◌*◌, ◌/◌, ◌%◌, ◌^◌, ◌≤◌, ◌<◌, ◌≡◌, List, arith, get_or}
use aog_task_controller.App.{magnitude}
use aog_task_controller.App.Cyclic.{speed_j1939, j1939_speed_data}

-- The speed that a receiver reads: bytes 3 and 4, the low byte first.
abbrev pub read_speed : List ℕ → ℕ
read_speed message = get_or message 2 0 + 2 ^ 8 * get_or message 3 0

-- Nothing wraps around.
unwrapped :
    (m : ℕ) → m ≤ 71110 → ((m * 576 % 2 ^ 32 + 312) % 2 ^ 32 / 625) % 2 ^ 16 ≡ (m * 576 + 312) / 625
unwrapped m h =
    let product : m * 576 % 2 ^ 32 ≡ m * 576 = omega (arith, h) in
    let total : (m * 576 + 312) % 2 ^ 32 ≡ m * 576 + 312 = omega (arith, h) in
    rw (product, total) (omega (arith, h))

rejoined : (s : ℕ) → s < 2 ^ 16 → s % 2 ^ 8 + 2 ^ 8 * (s / 2 ^ 8 % 2 ^ 8) ≡ s
rejoined s h = omega (arith, h)

nearest :
    (m : ℕ) → let s = (m * 576 + 312) / 625 in (625 * s ≤ 576 * m + 312) × (576 * m ≤ 625 * s + 312)
nearest m = (omega arith, omega arith)

-- For a speed of up to 71110 mm/s (256 km/h), forward or in reverse, the receiver reads the nearest
-- number of units of 1/256 km/h: the speed in these units is 576/625 of that in mm/s, and 625 times the
-- number read is at most 312 away from 576 times the speed.
pub j1939_speed_data-bounds :
    (value : ℕ)
    → magnitude value ≤ 71110
    → let speed = read_speed (j1939_speed_data value) in
      (625 * speed ≤ 576 * magnitude value + 312) × (576 * magnitude value ≤ 625 * speed + 312)
unfolding j1939_speed_data
j1939_speed_data-bounds value h =
    let m = magnitude value in
    let s = (m * 576 + 312) / 625 in
    let e : speed_j1939 value ≡ s = unwrapped m h in
    let small : s < 2 ^ 16 = omega (arith, h) in rw (e, rejoined s small) (nearest m)
