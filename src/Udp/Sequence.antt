-- ===== src/Udp/Sequence.antt =====
-- Two frames in one datagram, or a short frame that waited for the next datagram: `index` is not set
-- back between two rounds of the loop.
use aog_task_controller.Prelude.{
  ℕ, suc, ◌+◌, ◌-◌, ◌*◌, ◌≤◌, ◌<◌, ◌≡◌, ◌≢◌, refl, ap, ◌∙◌, List, [], ◌∷◌, ◌++◌, some, arith, u8,
  length, drop, ne→==, take-length-append, drop-length-append, append_assoc, length-append, lt→ltb,
  ge→ltb, get_or-append_left,
}
use aog_task_controller.Udp.{
  Packet, Rx, datagram, receive_into, discard, deliver, incoming_round, incoming_loop,
  handle_incoming_packets, byte_at, packet_start,
}
use aog_task_controller.Udp.Receive.{frame, length-frame, incoming_loop-frame, receive_into_empty}

-- What is left moves to the front, over the bytes that were read.
discard-append :
    (xs ys rest : List ℕ)
    → 0 < length ys
    → discard (record { buffer = xs ++ (ys ++ rest); rx_index = length xs + length ys }) (length xs)
      ≡ record { buffer = ys ++ drop (length ys) (xs ++ (ys ++ rest)); rx_index = length ys }
unfolding discard
discard-append xs ys rest some_left =
    let left : length xs + length ys - length xs ≡ length ys = omega arith in
    rw
      (
        lt→ltb (length xs) (length xs + length ys) (omega arith),
        left,
        drop-length-append xs (ys ++ rest),
        take-length-append ys rest,
      )
      refl

-- Bytes that do not begin a frame empty the buffer.
incoming_round-unknown :
    (rx : Rx) (index : ℕ)
    → byte_at rx.buffer index * 256 + byte_at rx.buffer (u8 (index + 1)) ≢ packet_start
    → incoming_round rx index ≡ (record rx { rx_index = 0 }, u8 (index + 2), [])
unfolding incoming_round
incoming_round-unknown rx index strange = rw (ne→== _ _ strange) refl

incoming_loop-unknown :
    (rounds : ℕ) (rx : Rx) (index : ℕ)
    → 8 ≤ rx.rx_index
    → byte_at rx.buffer index * 256 + byte_at rx.buffer (u8 (index + 1)) ≢ packet_start
    → incoming_loop (suc (suc rounds)) rx index ≡ some (record rx { rx_index = 0 }, [])
unfolding incoming_loop
incoming_loop-unknown rounds rx index full strange =
    let one = incoming_round-unknown rx index strange in
    rw (ge→ltb rx.rx_index 8 full, incoming_loop, one)
      (ap (λ (t : Rx × ℕ × List Packet). some (t.0, [])) one)

second_unknown :
    (rounds : ℕ) (xs ys rest : List ℕ)
    → 8 ≤ length ys
    → length xs + 1 < length ys
    → length xs < 255
    → byte_at ys (length xs) * 256 + byte_at ys (length xs + 1) ≢ packet_start
    → incoming_loop
        (suc (suc rounds))
        (discard
          (record { buffer = xs ++ (ys ++ rest); rx_index = length xs + length ys })
          (length xs))
        (length xs)
      ≡ some (record { buffer = ys ++ drop (length ys) (xs ++ (ys ++ rest)); rx_index = 0 }, [])
second_unknown rounds xs ys rest full longer small strange =
    let over = drop (length ys) (xs ++ (ys ++ rest)) in
    let next : u8 (length xs + 1) ≡ length xs + 1 = omega arith in
    rw (discard-append xs ys rest (omega arith)) (
      incoming_loop-unknown rounds (record { buffer = ys ++ over; rx_index = length ys })
        (length xs) full
        (rw
          (
            next,
            get_or-append_left ys over (length xs) 0 (omega arith),
            get_or-append_left ys over (length xs + 1) 0 (omega arith),
          )
          strange))

-- Two frames in one datagram that arrives in an empty buffer, the second longer than the first by two
-- bytes or more. The first is delivered. The second is moved to the front but looked for where it was
-- before, in the middle of the copy; if the two bytes there do not begin a frame, it is dropped.
pub handle_incoming_packets_second_lost :
    (rounds : ℕ) (rx : Rx) (p q : Packet) (c d : ℕ)
    → 3 ≤ rounds
    → rx.rx_index ≡ 0
    → 2 ≤ length p.payload
    → length p.payload + 2 ≤ length q.payload
    → length q.payload < 240
    → byte_at (frame q d) (length (frame p c)) * 256 + byte_at (frame q d) (length (frame p c) + 1)
      ≢ packet_start
    → (rx' : Rx) × (handle_incoming_packets rounds rx (datagram (frame p c ++ frame q d))
        ≡ some (rx', p ∷ []))
      × (rx'.rx_index ≡ 0)
unfolding handle_incoming_packets
handle_incoming_packets_second_lost rounds rx p q c d enough empty long longer short strange =
    let xs = frame p c in
    let ys = frame q d in
    let x : length xs ≡ length p.payload + 6 = length-frame p c in
    let y : length ys ≡ length q.payload + 6 = length-frame q d in
    let xy : length (xs ++ ys) ≡ length xs + length ys = length-append xs ys in
    let rest = drop (length (xs ++ ys)) rx.buffer in
    let r = length xs + length ys in
    let index : u8 (length p.payload + 6) ≡ length xs = omega arith in
    let more : rounds ≡ suc (suc (suc (rounds - 3))) = omega arith in
    let start : receive_into rx (xs ++ ys) ≡ record { buffer = xs ++ (ys ++ rest); rx_index = r } =
      receive_into_empty rx (xs ++ ys) empty (omega arith)
      ∙ (λ i. record { buffer = append_assoc xs ys rest i; rx_index = xy i }) in
    let lost : incoming_loop (suc (suc (rounds - 3)))
          (discard (record { buffer = xs ++ (ys ++ rest); rx_index = r })
            (u8 (length p.payload + 6)))
          (u8 (length p.payload + 6))
        ≡ some (record { buffer = ys ++ drop (length ys) (xs ++ (ys ++ rest)); rx_index = 0 }, []) =
      rw index (
        second_unknown (rounds - 3) xs ys rest (omega arith) (omega arith) (omega arith) strange) in
    (
      record { buffer = ys ++ drop (length ys) (xs ++ (ys ++ rest)); rx_index = 0 },
      ap (λ n. incoming_loop n (receive_into rx (xs ++ ys)) 0) more
          ∙ ap (λ rx'. incoming_loop (suc (suc (suc (rounds - 3)))) rx' 0) start
          ∙ incoming_loop-frame (suc (suc (rounds - 3))) p c (ys ++ rest) r (omega arith)
              (omega arith)
          ∙ ap (deliver (p ∷ [])) lost,
      refl,
    )
