-- ===== src/Udp/Detection.antt =====
-- `handle_address_detection`: the loop of the second socket, which looks for the frame that names the
-- subnet. Its effects outside, the saved settings and the socket that is bound again, follow from the
-- list of subnets that it sets.
use aog_task_controller.Prelude.{
  ℕ, zero, suc, ◌+◌, ◌-◌, ◌*◌, ◌≤◌, ◌≡◌, refl, ap, true, false, ◌&&◌, List, [], ◌∷◌, ◌++◌, Option,
  none, some, arith, ltb, ◌==◌, if◌then◌else◌, u8, drop,
}
use aog_task_controller.Udp.{
  Packet, Rx, Reception, would_block, failure, datagram, receive_into, discard, byte_at,
  packet_start,
}
use aog_task_controller.Udp.Receive.{frame, receive_into_empty}

pub record Subnet : Type 0 where
  pub ip_0 : ℕ
  pub ip_1 : ℕ
  pub ip_2 : ℕ

-- What one frame does: the subnet that it sets, if any, and the new `index`. `body` is the index of
-- the payload; each test of a payload byte that is made moves `index` on.
unfoldable pub detect : List ℕ → ℕ → ℕ → ℕ → ℕ → List Subnet × ℕ
detect b src pgn len body =
    let one = u8 (body + 1) in
    let two = u8 (body + 2) in
    let subnet : Subnet = record {
      ip_0 = byte_at b two;
      ip_1 = byte_at b (u8 (two + 1));
      ip_2 = byte_at b (u8 (two + 2));
    } in
    if src == 0x7F && pgn == 0xC9 && len == 5
    then if byte_at b body == 0xC9
      then if byte_at b one == 0xC9
        then (subnet ∷ [], u8 (u8 (two + 3) + len - 4))
        else ([], u8 (two + len + 1))
      else ([], u8 (one + len + 1))
    else ([], u8 (body + len + 1))

unfoldable pub detection_round : Rx → ℕ → Rx × ℕ × List Subnet
unfolding detect
detection_round rx index =
    let b = rx.buffer in
    let start = byte_at b index * 256 + byte_at b (u8 (index + 1)) in
    let (found, index') =
      detect b (byte_at b (u8 (index + 2))) (byte_at b (u8 (index + 3)))
        (byte_at b (u8 (index + 4))) (u8 (index + 5)) in
    if start == packet_start
    then (discard rx index', index', found)
    else (record rx { rx_index = 0 }, u8 (index + 2), [])

abbrev pub note_found : List Subnet → Option (Rx × List Subnet) → Option (Rx × List Subnet)
note_found now none = none
note_found now (some (rx, later)) = some (rx, now ++ later)

unfoldable pub detection_loop : ℕ → Rx → ℕ → Option (Rx × List Subnet)
unfolding detection_round
detection_loop zero rx index = none
detection_loop (suc rounds) rx index = elim (ltb rx.rx_index 8) [
  | true ↦ some (rx, [])
  | false ↦
      let (rx', index', now) = detection_round rx index in
      note_found now (detection_loop rounds rx' index')
]

unfoldable pub handle_address_detection : ℕ → Rx → Reception → Option (Rx × List Subnet)
unfolding detection_loop receive_into
handle_address_detection rounds rx would_block = some (rx, [])
handle_address_detection rounds rx failure = some (rx, [])
handle_address_detection rounds rx (datagram bytes) =
    detection_loop rounds (receive_into rx bytes) 0

-- The packet that names a subnet.
abbrev pub subnet_packet : Subnet → Packet
subnet_packet s = record {
  src = 0x7F;
  pgn = 0xC9;
  payload = 0xC9 ∷ 0xC9 ∷ s.ip_0 ∷ s.ip_1 ∷ s.ip_2 ∷ [];
}

-- A frame that names a subnet, in an empty buffer, sets that subnet and no other, and leaves the
-- buffer empty.
pub handle_address_detection-subnet :
    (rounds : ℕ) (rx : Rx) (s : Subnet) (crc : ℕ)
    → 2 ≤ rounds
    → rx.rx_index ≡ 0
    → (rx' : Rx) × (handle_address_detection rounds rx (datagram (frame (subnet_packet s) crc))
        ≡ some (rx', s ∷ []))
      × (rx'.rx_index ≡ 0)
unfolding handle_address_detection discard
handle_address_detection-subnet zero rx s crc enough empty = absurd (omega arith)
handle_address_detection-subnet (suc zero) rx s crc enough empty = absurd (omega arith)
handle_address_detection-subnet (suc (suc rounds)) rx s crc enough empty =
    let b = frame (subnet_packet s) crc ++ drop 11 rx.buffer in
    (
      record { buffer = b; rx_index = 0 },
      ap (λ rx'. detection_loop (suc (suc rounds)) rx' 0)
          (receive_into_empty rx (frame (subnet_packet s) crc) empty (omega arith)),
      refl,
    )
