-- ===== src/Udp/RoundTrip.antt =====
-- What `send` puts on the wire is what a handler with an empty buffer hands on.
use aog_task_controller.Prelude.{
  ℕ, ◌≤◌, ◌<◌, ◌%◌, ◌≡◌, refl, List, [], ◌∷◌, some, arith, u8, length,
}
use aog_task_controller.Udp.{Packet, Rx, datagram, handle_incoming_packets, frame_of}
use aog_task_controller.Udp.Send.{sum, calculate_crc-sum}
use aog_task_controller.Udp.Receive.{frame, handle_incoming_packets-frame}

pub frame_of-frame :
    (rounds : ℕ) (p : Packet)
    → 256 ≤ rounds
    → length p.payload < 253
    → (crc : ℕ) × (frame_of rounds p.src p.pgn p.payload ≡ some (frame p crc))
unfolding frame_of
frame_of-frame rounds p enough short =
    let covered = p.src ∷ p.pgn ∷ u8 (length p.payload) ∷ p.payload in
    let crc = calculate_crc-sum covered rounds (omega arith) (omega arith) in
    (sum covered % 256, rw (crc, frame_of) refl)

-- A packet of 2 to 249 bytes of payload: `send` builds a frame of it, and a handler with an empty
-- buffer that receives this frame delivers exactly that packet, and is left with an empty buffer.
pub send_receive :
    (p : Packet) (rx : Rx) (crc_rounds rounds : ℕ)
    → 256 ≤ crc_rounds
    → 2 ≤ rounds
    → rx.rx_index ≡ 0
    → 2 ≤ length p.payload
    → length p.payload < 250
    → (bytes : List ℕ) × (rx' : Rx) × (frame_of crc_rounds p.src p.pgn p.payload ≡ some bytes)
      × (handle_incoming_packets rounds rx (datagram bytes) ≡ some (rx', p ∷ []))
      × (rx'.rx_index ≡ 0)
send_receive p rx crc_rounds rounds crc_enough enough empty long short =
    let (crc, sent) = frame_of-frame crc_rounds p crc_enough (omega arith) in
    let (rx', received, empty') =
      handle_incoming_packets-frame rounds rx p crc enough empty long short in
    (frame p crc, rx', sent, received, empty')
