-- ===== src/Udp.antt =====
-- src/udp_connections.cpp: the frames that go to AgOpenGPS and back. A byte is a number below 256.
pub mod Send
pub mod Receive
pub mod Sequence
pub mod RoundTrip
pub mod Detection
pub mod Endpoint
use aog_task_controller.Prelude.{
  ℕ, zero, suc, ◌+◌, ◌-◌, ◌*◌, ◌<◌, Bool, true, false, not, ◌&&◌, List, [], ◌∷◌, ◌++◌, Option, none,
  some, ltb, ◌==◌, if◌then◌else◌, u8, length, get_or, take, drop,
}

-- `rxBuffer` has this many bytes.
abbrev pub rx_capacity : ℕ
rx_capacity = 512

abbrev pub packet_start : ℕ
packet_start = 0x8081

pub record Packet : Type 0 where
  pub src : ℕ
  pub pgn : ℕ
  pub payload : List ℕ

-- The static variables of a handler.
pub record Rx : Type 0 where
  pub buffer : List ℕ
  pub rx_index : ℕ

-- What `receive_from` comes back with.
pub data Reception : Type 0 where
  would_block failure : Reception
  datagram : List ℕ → Reception

-- `rxBuffer[i]`: every index that the loops compute has 8 bits, so it is below the capacity.
abbrev pub byte_at : List ℕ → ℕ → ℕ
byte_at buffer i = get_or buffer i 0

-- A datagram is written behind what is there, as far as there is room.
unfoldable pub receive_into : Rx → List ℕ → Rx
receive_into rx bytes =
    let received = take (rx_capacity - rx.rx_index) bytes in
    record {
      buffer =
          take rx.rx_index rx.buffer ++ received ++ drop (rx.rx_index + length received) rx.buffer;
      rx_index = rx.rx_index + length received;
    }

-- `memmove` of what is left to the front, or an empty buffer.
unfoldable pub discard : Rx → ℕ → Rx
discard rx index =
    let rest = rx.rx_index - index in
    if ltb index rx.rx_index
    then record {
      buffer = take rest (drop index rx.buffer) ++ drop rest rx.buffer;
      rx_index = rest;
    }
    else record rx { rx_index = 0 }

-- The body of the `while` of `handle_incoming_packets`. The second part is `index`, an 8-bit number
-- that lives on from one round to the next; the third is what the callback gets.
unfoldable pub incoming_round : Rx → ℕ → Rx × ℕ × List Packet
unfolding discard
incoming_round rx index =
    let b = rx.buffer in
    let start = byte_at b index * 256 + byte_at b (u8 (index + 1)) in
    let len = byte_at b (u8 (index + 4)) in
    let body = u8 (index + 5) in
    let packet : Packet = record {
      src = byte_at b (u8 (index + 2));
      pgn = byte_at b (u8 (index + 3));
      payload = take len (drop body b);
    } in
    if start == packet_start
    then (discard rx (u8 (body + len + 1)), u8 (body + len + 1), packet ∷ [])
    else (record rx { rx_index = 0 }, u8 (index + 2), [])

abbrev pub deliver : List Packet → Option (Rx × List Packet) → Option (Rx × List Packet)
deliver now none = none
deliver now (some (rx, later)) = some (rx, now ++ later)

-- `none` means that the rounds ran out.
unfoldable pub incoming_loop : ℕ → Rx → ℕ → Option (Rx × List Packet)
incoming_loop zero rx index = none
incoming_loop (suc rounds) rx index = elim (ltb rx.rx_index 8) [
  | true ↦ some (rx, [])
  | false ↦
      let (rx', index', now) = incoming_round rx index in
      deliver now (incoming_loop rounds rx' index')
]

unfoldable pub handle_incoming_packets : ℕ → Rx → Reception → Option (Rx × List Packet)
unfolding incoming_loop incoming_round receive_into
handle_incoming_packets rounds rx would_block = some (rx, [])
handle_incoming_packets rounds rx failure = some (rx, [])
handle_incoming_packets rounds rx (datagram bytes) = incoming_loop rounds (receive_into rx bytes) 0

-- `calculate_crc`: the counter has 8 bits too.
unfoldable pub crc_loop : ℕ → List ℕ → ℕ → ℕ → Option ℕ
crc_loop zero bytes i result = none
crc_loop (suc rounds) bytes i result =
    let rest = crc_loop rounds bytes (u8 (i + 1)) (result + byte_at bytes i) in
    if ltb i (length bytes) then rest else some (u8 result)

unfoldable pub calculate_crc : ℕ → List ℕ → Option ℕ
unfolding crc_loop
calculate_crc rounds bytes = crc_loop rounds bytes 0 0

-- The bytes that `send` hands to the socket.
unfoldable pub frame_of : ℕ → ℕ → ℕ → List ℕ → Option (List ℕ)
unfolding calculate_crc
frame_of rounds src pgn payload =
    let covered = src ∷ pgn ∷ u8 (length payload) ∷ payload in
    elim (calculate_crc rounds covered) [
      | none ↦ none
      | some crc ↦ some (0x80 ∷ 0x81 ∷ covered ++ (crc ∷ []))
    ]
