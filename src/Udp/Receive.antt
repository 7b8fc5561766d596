-- ===== src/Udp/Receive.antt =====
-- `handle_incoming_packets` on frames as AgOpenGPS and AgIO send them.
use aog_task_controller.Prelude.{
  ℕ, zero, suc, ◌+◌, ◌-◌, ◌≤◌, ◌<◌, ◌≡◌, refl, ap, ◌∙◌, List, [], ◌∷◌, ◌++◌, none, some, arith, u8,
  length, take, drop, take_all, take-length-append, take-append-drop, append_assoc, length-append,
  lt→ltb, ge→ltb,
}
use aog_task_controller.Udp.{
  Packet, Rx, datagram, receive_into, discard, deliver, incoming_round, incoming_loop,
  handle_incoming_packets,
}

-- A frame with any checksum; the length byte holds the length modulo 256.
abbrev pub frame : Packet → ℕ → List ℕ
frame p crc = 0x80 ∷ 0x81 ∷ p.src ∷ p.pgn ∷ u8 (length p.payload) ∷ p.payload ++ (crc ∷ [])

pub length-frame : (p : Packet) (crc : ℕ) → length (frame p crc) ≡ length p.payload + 6
length-frame p crc = omega (arith, length-append p.payload (crc ∷ []))

-- One round at the start of a frame, whatever follows it: the packet comes out as it went in, and
-- `index` is the length of the frame, as far as it fits 8 bits.
incoming_round-frame :
    (p : Packet) (crc : ℕ) (rest : List ℕ) (r : ℕ)
    → length p.payload < 256
    → incoming_round (record { buffer = frame p crc ++ rest; rx_index = r }) 0 ≡ (
      discard (record { buffer = frame p crc ++ rest; rx_index = r }) (u8 (length p.payload + 6)),
      u8 (length p.payload + 6),
      p ∷ [],
    )
unfolding incoming_round
incoming_round-frame p crc rest r small =
    let len : u8 (length p.payload) ≡ length p.payload = omega arith in
    let index : u8 (5 + length p.payload + 1) ≡ u8 (length p.payload + 6) = omega arith in
    let body : take (length p.payload) ((p.payload ++ (crc ∷ [])) ++ rest) ≡ p.payload =
      rw append_assoc (take-length-append p.payload ((crc ∷ []) ++ rest)) in
    rw (len, index, body) refl

-- What is at the front of the buffer is all there is.
discard_all :
    (rx : Rx) (index : ℕ) → rx.rx_index ≤ index → discard rx index ≡ record rx { rx_index = 0 }
unfolding discard
discard_all rx index h = rw (ge→ltb index rx.rx_index h)

-- A whole datagram in an empty buffer.
pub receive_into_empty :
    (rx : Rx) (bytes : List ℕ)
    → rx.rx_index ≡ 0
    → length bytes ≤ 512
    → receive_into rx bytes
      ≡ record { buffer = bytes ++ drop (length bytes) rx.buffer; rx_index = length bytes }
unfolding receive_into
receive_into_empty rx bytes empty small =
    let room : take (512 - 0) bytes ≡ bytes = take_all 512 bytes small in
    let front : 0 + length bytes ≡ length bytes = omega arith in rw (empty, room, front) refl

pub incoming_loop_done :
    (rounds : ℕ) (rx : Rx) (index : ℕ)
    → rx.rx_index < 8
    → incoming_loop (suc rounds) rx index ≡ some (rx, [])
unfolding incoming_loop
incoming_loop_done rounds rx index h = rw (lt→ltb rx.rx_index 8 h, incoming_loop)

pub incoming_loop-frame :
    (rounds : ℕ) (p : Packet) (crc : ℕ) (rest : List ℕ) (r : ℕ)
    → length p.payload < 256
    → 8 ≤ r
    → incoming_loop (suc rounds) (record { buffer = frame p crc ++ rest; rx_index = r }) 0
      ≡ deliver (p ∷ []) (
          incoming_loop rounds
            (discard
              (record { buffer = frame p crc ++ rest; rx_index = r })
              (u8 (length p.payload + 6)))
            (u8 (length p.payload + 6)))
unfolding incoming_loop
incoming_loop-frame rounds p crc rest r small full =
    rw (ge→ltb r 8 full, incoming_loop, incoming_round-frame p crc rest r small) refl

-- A frame of 2 to 249 bytes of payload that arrives in an empty buffer is delivered as it was sent,
-- once, in two rounds of the loop, and leaves the buffer empty.
pub handle_incoming_packets-frame :
    (rounds : ℕ) (rx : Rx) (p : Packet) (crc : ℕ)
    → 2 ≤ rounds
    → rx.rx_index ≡ 0
    → 2 ≤ length p.payload
    → length p.payload < 250
    → (rx' : Rx) × (handle_incoming_packets rounds rx (datagram (frame p crc)) ≡ some (rx', p ∷ []))
      × (rx'.rx_index ≡ 0)
unfolding handle_incoming_packets
handle_incoming_packets-frame zero rx p crc enough empty long short = absurd (omega arith)
handle_incoming_packets-frame (suc zero) rx p crc enough empty long short = absurd (omega arith)
handle_incoming_packets-frame (suc (suc rounds)) rx p crc enough empty long short =
    let n = length (frame p crc) in
    let rest = drop n rx.buffer in
    let size : n ≡ length p.payload + 6 = length-frame p crc in
    let index : u8 (length p.payload + 6) ≡ n = omega arith in
    let full : Rx = record { buffer = frame p crc ++ rest; rx_index = n } in
    let gone : discard full n ≡ record full { rx_index = 0 } = discard_all full n (omega arith) in
    let after : incoming_loop (suc rounds) (discard full (u8 (length p.payload + 6)))
          (u8 (length p.payload + 6))
        ≡ some (record full { rx_index = 0 }, []) =
      rw (index, gone) (incoming_loop_done rounds (record full { rx_index = 0 }) n (omega arith)) in
    (
      record full { rx_index = 0 },
      ap (λ rx'. incoming_loop (suc (suc rounds)) rx' 0)
            (receive_into_empty rx (frame p crc) empty (omega arith))
          ∙ incoming_loop-frame (suc rounds) p crc rest n (omega arith) (omega arith)
          ∙ ap (deliver (p ∷ [])) after,
      refl,
    )

-- With 250 bytes of payload `index` wraps to 0 and the buffer stays as it is.
discard_none :
    (b : List ℕ) (r : ℕ)
    → 0 < r
    → discard (record { buffer = b; rx_index = r }) 0 ≡ record { buffer = b; rx_index = r }
unfolding discard
discard_none b r some_left =
    let whole : r - 0 ≡ r = omega arith in
    rw (lt→ltb 0 r some_left, whole, take-append-drop r b) refl

-- A frame of 250 bytes of payload in front of the buffer is delivered again and again: the loop never
-- ends, however many rounds it is given.
incoming_loop_endless :
    (rounds : ℕ) (p : Packet) (crc : ℕ) (rest : List ℕ) (r : ℕ)
    → length p.payload ≡ 250
    → 8 ≤ r
    → incoming_loop rounds (record { buffer = frame p crc ++ rest; rx_index = r }) 0 ≡ none
incoming_loop_endless zero p crc rest r long full = unfold incoming_loop in refl
incoming_loop_endless (suc rounds) p crc rest r long full =
    let b = frame p crc ++ rest in
    let index : u8 (length p.payload + 6) ≡ 0 = omega arith in
    let again : incoming_loop rounds
          (discard (record { buffer = b; rx_index = r }) (u8 (length p.payload + 6)))
          (u8 (length p.payload + 6))
        ≡ none =
      rw (index, discard_none b r (omega arith))
        (incoming_loop_endless rounds p crc rest r long full) in
    incoming_loop-frame rounds p crc rest r (omega arith) full ∙ ap (deliver (p ∷ [])) again

-- A frame of exactly 250 bytes of payload that arrives in an empty buffer keeps the handler in its
-- loop: no number of rounds is enough.
pub handle_incoming_packets_endless :
    (rounds : ℕ) (rx : Rx) (p : Packet) (crc : ℕ)
    → rx.rx_index ≡ 0
    → length p.payload ≡ 250
    → handle_incoming_packets rounds rx (datagram (frame p crc)) ≡ none
unfolding handle_incoming_packets
handle_incoming_packets_endless rounds rx p crc empty long =
    let n = length (frame p crc) in
    let size : n ≡ length p.payload + 6 = length-frame p crc in
    ap (λ rx'. incoming_loop rounds rx' 0) (receive_into_empty rx (frame p crc) empty (omega arith))
    ∙ incoming_loop_endless rounds p crc (drop n rx.buffer) n long (omega arith)

-- A frame of at most one byte of payload that arrives in an empty buffer is not delivered: it stays in
-- the buffer.
pub handle_incoming_packets_short :
    (rounds : ℕ) (rx : Rx) (p : Packet) (crc : ℕ)
    → 1 ≤ rounds
    → rx.rx_index ≡ 0
    → length p.payload < 2
    → (rx' : Rx) × (handle_incoming_packets rounds rx (datagram (frame p crc)) ≡ some (rx', []))
      × (rx'.rx_index ≡ length p.payload + 6)
      × (take rx'.rx_index rx'.buffer ≡ frame p crc)
unfolding handle_incoming_packets
handle_incoming_packets_short zero rx p crc enough empty short = absurd (omega arith)
handle_incoming_packets_short (suc rounds) rx p crc enough empty short =
    let n = length (frame p crc) in
    let size : n ≡ length p.payload + 6 = length-frame p crc in
    let kept : Rx = record { buffer = frame p crc ++ drop n rx.buffer; rx_index = n } in
    (
      kept,
      ap (λ rx'. incoming_loop (suc rounds) rx' 0)
            (receive_into_empty rx (frame p crc) empty (omega arith))
          ∙ incoming_loop_done rounds kept 0 (omega arith),
      size,
      take-length-append (frame p crc) (drop n rx.buffer),
    )
