-- ===== src/Examples/Wire.antt =====
-- Frames.
use aog_task_controller.Prelude.{
  ℕ, ◌≡◌, refl, List, [], ◌∷◌, ◌++◌, none, some, arith, replicate, take, ◌%◌,
}
use aog_task_controller.Udp.{
  Packet, Rx, datagram, handle_incoming_packets, frame_of, calculate_crc, incoming_loop,
  incoming_round, receive_into, discard,
}
use aog_task_controller.Udp.Send.{calculate_crc-sum, calculate_crc_endless, sum}
use aog_task_controller.Udp.Receive.{
  frame, handle_incoming_packets_endless, handle_incoming_packets_short,
}
use aog_task_controller.Udp.Sequence.{handle_incoming_packets_second_lost}
use aog_task_controller.Udp.Detection.{
  handle_address_detection, handle_address_detection-subnet, subnet_packet,
}
use aog_task_controller.Udp.RoundTrip.{send_receive}

abbrev empty_rx : Rx
empty_rx = record { buffer = replicate 512 0; rx_index = 0 }

-- Section control on, as a padded frame.
abbrev control_packet : Packet
control_packet = record { src = 0x7F; pgn = 0xF1; payload = 1 ∷ 0 ∷ 0 ∷ [] }

abbrev one_byte_packet : Packet
one_byte_packet = record { src = 0x7F; pgn = 0xF1; payload = 1 ∷ [] }

abbrev sections_packet : Packet
sections_packet = record { src = 0x7F; pgn = 0xE5; payload = 255 ∷ 1 ∷ 0 ∷ 0 ∷ 0 ∷ 0 ∷ 0 ∷ 0 ∷ [] }

abbrev long_packet : Packet
long_packet = record { src = 0x7C; pgn = 0xD6; payload = replicate 250 4 }

send_receive_example :
    (bytes : List ℕ) × (rx' : Rx) × (frame_of 256 0x7F 0xF1 (1 ∷ 0 ∷ 0 ∷ []) ≡ some bytes)
    × (handle_incoming_packets 2 empty_rx (datagram bytes) ≡ some (rx', control_packet ∷ []))
    × (rx'.rx_index ≡ 0)
send_receive_example =
    send_receive control_packet empty_rx 256 2 (omega arith) (omega arith) refl (omega arith)
      (omega arith)

handle_incoming_packets_endless_example :
    handle_incoming_packets 1000 empty_rx (datagram (frame long_packet 0)) ≡ none
handle_incoming_packets_endless_example =
    handle_incoming_packets_endless 1000 empty_rx long_packet 0 refl refl

handle_incoming_packets_short_example :
    (rx' : Rx) × (handle_incoming_packets 2 empty_rx (datagram (frame one_byte_packet 0x72))
      ≡ some (rx', []))
    × (rx'.rx_index ≡ 7)
    × (take rx'.rx_index rx'.buffer ≡ frame one_byte_packet 0x72)
handle_incoming_packets_short_example =
    handle_incoming_packets_short 2 empty_rx one_byte_packet 0x72 (omega arith) refl (omega arith)

handle_incoming_packets_second_lost_example :
    (rx' : Rx) × (handle_incoming_packets 3 empty_rx
        (datagram (frame control_packet 0 ++ frame sections_packet 0))
      ≡ some (rx', control_packet ∷ []))
    × (rx'.rx_index ≡ 0)
handle_incoming_packets_second_lost_example =
    handle_incoming_packets_second_lost 3 empty_rx control_packet sections_packet 0 0 (omega arith)
      refl (omega arith) (omega arith) (omega arith) (λ e. omega arith)

-- The header and the payload of a frame.
abbrev covered : List ℕ
covered = 0x7F ∷ 0xF1 ∷ 1 ∷ 1 ∷ []

calculate_crc-sum_example : calculate_crc 9 covered ≡ some (sum covered % 256)
calculate_crc-sum_example = calculate_crc-sum covered 9 (omega arith) (omega arith)

calculate_crc_endless_example : calculate_crc 1000 (replicate 256 1) ≡ none
calculate_crc_endless_example = calculate_crc_endless (replicate 256 1) 1000 (omega arith)

handle_address_detection-subnet_example :
    (rx' : Rx) × (handle_address_detection 2 empty_rx
        (datagram (frame (subnet_packet (record { ip_0 = 192; ip_1 = 168; ip_2 = 1 })) 0))
      ≡ some (rx', record { ip_0 = 192; ip_1 = 168; ip_2 = 1 } ∷ []))
    × (rx'.rx_index ≡ 0)
handle_address_detection-subnet_example =
    handle_address_detection-subnet 2 empty_rx (record { ip_0 = 192; ip_1 = 168; ip_2 = 1 }) 0
      (omega arith) refl

-- Two frames of one length are both delivered.
two_frames :
    (handle_incoming_packets 3 empty_rx
      (datagram (frame control_packet 0 ++ frame control_packet 0)))
    ≡ some (
      record {
        buffer = frame control_packet 0 ++ frame control_packet 0 ++ replicate 494 0;
        rx_index = 0;
      },
      control_packet ∷ control_packet ∷ [],
    )
unfolding handle_incoming_packets incoming_loop incoming_round receive_into discard
two_frames = refl
