-- ===== src/App/Cyclic/Quality.antt =====
-- The quality of the position that is sent to the implements.
use aog_task_controller.Prelude.{
  ℕ, ◌≤◌, ◌≡◌, ◌≢◌, ne→==, refl, ◌+◌, ◌*◌, ◌^◌, Bool, true, false, not, ◌&&◌, List, [], ◌∷◌, arith,
  leb, ltb, ◌==◌, if◌then◌else◌, if_both, length, get_or, Option, none, some, Bool-cases, inl, inr,
  subst, sym,
}
use aog_task_controller.Isobus.{DataDictionary, PoolLibrary}
use aog_task_controller.Udp.{Packet}
use aog_task_controller.App.{
  App, Moment, Output, handle_packet, receive_gnss, receive_demand, receive_control,
  receive_process_data, receive_speed, receive_xte, receive_distance,
}
use aog_task_controller.App.Cyclic.{Tick, forwarded_quality}

-- A packet with the quality of the position: of at least 39 bytes, of which the last is the quality.
unfoldable pub has_quality : Packet → Bool
has_quality p = (p.src == 0x7C && p.pgn == 0xD6) && leb 39 (length p.payload)

-- The last quality of the packets, as it came, with its time.
unfoldable pub last_quality : Option (ℕ × ℕ) → List (Moment × Packet) → Option (ℕ × ℕ)
last_quality last [] = last
last_quality last ((now, p) ∷ rest) =
    last_quality (if has_quality p then some (get_or p.payload 38 0, now.timestamp_ms) else last)
      rest

-- A quality above 8 counts as 1.
unfoldable pub known_quality : ℕ → ℕ
known_quality quality = if leb quality 8 then quality else 1

-- What is to be sent.
unfoldable pub quality_to_send : (ℕ → ℕ → Bool) → Option (ℕ × ℕ) → ℕ
unfolding known_quality
quality_to_send expired none = 1
quality_to_send expired (some (quality, time)) =
    if expired time 2000 then 0 else known_quality quality

-- No packet comes at the time 0, which stands for no packet.
abbrev pub TimesSet : List (Moment × Packet) → Type 0
TimesSet [] = Unit {0}
TimesSet ((now, p) ∷ rest) = (now.timestamp_ms ≢ 0) × TimesSet rest

-- The members that hold the last quality.
abbrev Holds : Option (ℕ × ℕ) → ℕ → ℕ → Type 0
Holds none quality ms = ms ≡ 0
Holds (some (q, t)) quality ms = (quality ≡ known_quality q) × (ms ≡ t) × (t ≢ 0)

Holds-quality_to_send :
    (tick : Tick) (last : Option (ℕ × ℕ)) (quality ms : ℕ)
    → Holds last quality ms
    → forwarded_quality tick quality ms ≡ quality_to_send tick.expired last
unfolding forwarded_quality quality_to_send
Holds-quality_to_send tick none quality ms h = rw h refl
Holds-quality_to_send tick (some (q, t)) quality ms (same, time, set) =
    rw (same, time, ne→== t 0 set) refl

quality_to_send_le :
    (expired : ℕ → ℕ → Bool) (last : Option (ℕ × ℕ)) → quality_to_send expired last ≤ 8
unfolding quality_to_send known_quality
quality_to_send_le expired none = omega arith
quality_to_send_le expired (some (q, t)) = ground arith

module _ (lib : PoolLibrary) (dd : DataDictionary) where
  open lib use {Pool}

  -- The packets that arrive, each at its moment.
  unfoldable pub handle_packets : List (Moment × Packet) → App Pool → App Pool
  handle_packets [] app = app
  handle_packets ((now, p) ∷ rest) app = handle_packets rest (handle_packet lib dd now p app).0

  -- The two members are those of before.
  record Keeps (app : App Pool) (r : App Pool × List Output) : Type 0 where
    pub quality : r.0.gnss_fix_quality ≡ app.gnss_fix_quality
    pub time : r.0.last_gnss_quality_ms ≡ app.last_gnss_quality_ms

  receive_process_data-Keeps :
      (now : Moment) (payload : List ℕ) (app : App Pool)
      → Keeps app (receive_process_data now payload app)
  unfolding receive_process_data
  receive_process_data-Keeps now payload app =
      let byte = λ (i : ℕ). get_or payload i 0 in
      let value = byte 2 + byte 3 * 2 ^ 8 + byte 4 * 2 ^ 16 + byte 5 * 2 ^ 24 in
      let app' = record app { last_aog_packet_ms = now.timestamp_ms } in
      let speed : Keeps app (receive_speed now value app') = record {
        quality = unfold receive_speed in ground arith;
        time = unfold receive_speed in ground arith;
      } in
      let xte : Keeps app (receive_xte now value app') = record {
        quality = unfold receive_xte in ground arith;
        time = unfold receive_xte in ground arith;
      } in
      let distance : Keeps app (receive_distance now value app') = record {
        quality = unfold receive_distance in ground arith;
        time = unfold receive_distance in ground arith;
      } in
      let identifier = byte 0 + byte 1 * 2 ^ 8 in
      if_both (Keeps app) (identifier == now.actual_speed) _ _ speed (
        if_both (Keeps app) (identifier == now.guidance_line_deviation) _ _ xte (
          if_both (Keeps app) (identifier == 597) _ (app', []) distance
            (record { quality = refl; time = refl })))

  other_packet-Keeps :
      (now : Moment) (p : Packet) (app : App Pool)
      → (p.src == 0x7C && p.pgn == 0xD6) ≡ false
      → Keeps app (handle_packet lib dd now p app)
  unfolding handle_packet
  other_packet-Keeps now p app other =
      let whole : Keeps app (app, []) = record { quality = refl; time = refl } in
      let demand : Keeps app (receive_demand lib dd now p.payload app) = record {
        quality = unfold receive_demand in refl;
        time = unfold receive_demand in refl;
      } in
      let control : Keeps app (receive_control lib dd now p.payload app) = record {
        quality = unfold receive_control in refl;
        time = unfold receive_control in refl;
      } in
      let size = length p.payload in
      rw other (
        if_both (Keeps app) (not (p.src == 0x7F)) _ _ whole (
          if_both (Keeps app) (p.pgn == 0xE5 && leb 8 size) _ _ demand (
            if_both (Keeps app) (p.pgn == 0xF1 && ltb 0 size) _ _ control (
              if_both (Keeps app) (p.pgn == 0xF2 && leb 6 size) _ _
                (receive_process_data-Keeps now p.payload app) whole))))

  gnss_packet :
      (now : Moment) (p : Packet) (app : App Pool) (last : Option (ℕ × ℕ))
      → (p.src == 0x7C && p.pgn == 0xD6) ≡ true
      → now.timestamp_ms ≢ 0
      → Holds last app.gnss_fix_quality app.last_gnss_quality_ms
      → let app' = (handle_packet lib dd now p app).0 in
        Holds
          (if has_quality p then some (get_or p.payload 38 0, now.timestamp_ms) else last)
          app'.gnss_fix_quality
          app'.last_gnss_quality_ms
  unfolding handle_packet receive_gnss has_quality known_quality
  gnss_packet now p app last gnss set h = elim (Bool-cases (leb 39 (length p.payload))) [
    | inl long ↦
        let not_short : ltb (length p.payload) 39 ≡ false = ground (arith, long) in
        rw (gnss, long, not_short) (refl, refl, set)
    | inr short ↦
        let is_short : ltb (length p.payload) 39 ≡ true = ground (arith, short) in
        rw (gnss, short, is_short) h
  ]

  handle_packet-Holds :
      (now : Moment) (p : Packet) (app : App Pool) (last : Option (ℕ × ℕ))
      → now.timestamp_ms ≢ 0
      → Holds last app.gnss_fix_quality app.last_gnss_quality_ms
      → let app' = (handle_packet lib dd now p app).0 in
        Holds
          (if has_quality p then some (get_or p.payload 38 0, now.timestamp_ms) else last)
          app'.gnss_fix_quality
          app'.last_gnss_quality_ms
  handle_packet-Holds now p app last set h = elim (Bool-cases (p.src == 0x7C && p.pgn == 0xD6)) [
    | inl gnss ↦ gnss_packet now p app last gnss set h
    | inr other ↦
        let kept = other_packet-Keeps now p app other in
        let no_quality : has_quality p ≡ false = unfold has_quality in rw other refl in
        rw (no_quality, kept.quality, kept.time) h
  ]

  handle_packets-Holds :
      (packets : List (Moment × Packet)) (app : App Pool) (last : Option (ℕ × ℕ))
      → TimesSet packets
      → Holds last app.gnss_fix_quality app.last_gnss_quality_ms
      → let app' = handle_packets packets app in
        Holds (last_quality last packets) app'.gnss_fix_quality app'.last_gnss_quality_ms
  unfolding handle_packets last_quality
  handle_packets-Holds [] app last set h = h
  handle_packets-Holds ((now, p) ∷ rest) app last (set, later) h =
      handle_packets-Holds rest (handle_packet lib dd now p app).0 _ later
        (handle_packet-Holds now p app last set h)

  -- From the start of the application and after any packets, none of which comes at the time 0, the
  -- quality that is sent is decided by the last packet of AOG with a quality: 1 if there is none, 0 if
  -- it came too long ago, and otherwise the quality in that packet, or 1 if that is above 8. So it is
  -- one of the nine that NMEA 2000 knows.
  pub forwarded_quality-bounds :
      (packets : List (Moment × Packet)) (app : App Pool) (tick : Tick)
      → app.last_gnss_quality_ms ≡ 0
      → TimesSet packets
      → let app' = handle_packets packets app in
        let quality = forwarded_quality tick app'.gnss_fix_quality app'.last_gnss_quality_ms in
        (quality ≡ quality_to_send tick.expired (last_quality none packets)) × (quality ≤ 8)
  forwarded_quality-bounds packets app tick fresh set =
      let app' = handle_packets packets app in
      let last = last_quality none packets in
      let same =
        Holds-quality_to_send tick last app'.gnss_fix_quality app'.last_gnss_quality_ms
          (handle_packets-Holds packets app none set fresh) in
      (same, subst (λ q. q ≤ 8) (sym same) (quality_to_send_le tick.expired last))
