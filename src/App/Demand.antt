-- ===== src/App/Demand.antt =====
-- From the bits of a packet with the demand of AOG to the setpoints of the sections of a client.
use aog_task_controller.Prelude.{
  ℕ, zero, suc, ◌+◌, ◌*◌, ◌≤◌, ◌<◌, ◌≡◌, refl, ap, ◌∙◌, sym, if_true, if_false, Bool-cases, inl,
  inr, true, false, List, [], ◌∷◌, ◌++◌, Option, none, some, arith, ◌==◌, length, get_or,
  length-append, get_or-append_left, get_or-append_right,
}
use aog_task_controller.Prelude.Map.{Map, find}
use aog_task_controller.Isobus.{DataDictionary, PoolLibrary}
use aog_task_controller.Client.{ClientState}
use aog_task_controller.Client.Invariant.{IsValid}
use aog_task_controller.Server.{Message, for_clients}
use aog_task_controller.Server.Setpoints.{update_section_states, update_client_sections}
use aog_task_controller.Server.Setpoints.Demand.{wanted_state_on, update_client_sections_setpoints}
use aog_task_controller.Udp.{Packet}
use aog_task_controller.App.{
  App, Moment, bit, byte_states, demand_from, section_states, receive_demand, handle_packet,
}

length-byte_states : (byte rounds i : ℕ) → length (byte_states byte rounds i) ≡ rounds
unfolding byte_states
length-byte_states byte zero i = refl
length-byte_states byte (suc rounds) i = ap suc (length-byte_states byte rounds (i + 1))

get_or-byte_states :
    (byte rounds i n : ℕ)
    → n < rounds
    → get_or (byte_states byte rounds i) n false ≡ bit byte (i + n)
unfolding byte_states
get_or-byte_states byte zero i n h = absurd (omega (arith, h))
get_or-byte_states byte (suc rounds) i zero h = let e : i ≡ i + 0 = omega arith in ap (bit byte) e
get_or-byte_states byte (suc rounds) i (suc n) h =
    let e : i + 1 + n ≡ i + suc n = omega arith in
    get_or-byte_states byte rounds (i + 1) n (omega (arith, h)) ∙ ap (bit byte) e

length-demand_from :
    (payload : List ℕ) (rounds j : ℕ) → length (demand_from payload rounds j) ≡ 8 * rounds
unfolding demand_from
length-demand_from payload zero j = omega arith
length-demand_from payload (suc rounds) j =
    let now = byte_states (get_or payload j 0) 8 0 in
    let later = demand_from payload rounds (j + 1) in
    omega (
      arith,
      length-append now later,
      length-byte_states (get_or payload j 0) 8 0,
      length-demand_from payload rounds (j + 1),
    )

get_or-demand_from :
    (payload : List ℕ) (rounds j a i : ℕ)
    → a < rounds
    → i < 8
    → get_or (demand_from payload rounds j) (8 * a + i) false ≡ bit (get_or payload (j + a) 0) i
unfolding demand_from
get_or-demand_from payload zero j a i h small = absurd (omega (arith, h))
get_or-demand_from payload (suc rounds) j zero i h small =
    let now = byte_states (get_or payload j 0) 8 0 in
    let n = length-byte_states (get_or payload j 0) 8 0 in
    let e : 8 * zero + i ≡ i = omega arith in
    let f : j ≡ j + 0 = omega arith in
    ap (λ k. get_or (now ++ demand_from payload rounds (j + 1)) k false) e
    ∙ get_or-append_left now (demand_from payload rounds (j + 1)) i false (omega (arith, n, small))
    ∙ get_or-byte_states (get_or payload j 0) 8 0 i small
    ∙ ap (bit (get_or payload j 0)) (omega arith)
    ∙ ap (λ k. bit (get_or payload k 0) i) f
get_or-demand_from payload (suc rounds) j (suc a) i h small =
    let now = byte_states (get_or payload j 0) 8 0 in
    let n = length-byte_states (get_or payload j 0) 8 0 in
    let e : 8 * suc a + i ≡ length now + (8 * a + i) = omega (arith, n) in
    let f : j + 1 + a ≡ j + suc a = omega arith in
    ap (λ k. get_or (now ++ demand_from payload rounds (j + 1)) k false) e
    ∙ get_or-append_right now (demand_from payload rounds (j + 1)) (8 * a + i) false
    ∙ get_or-demand_from payload rounds (j + 1) a i (omega (arith, h)) small
    ∙ ap (λ k. bit (get_or payload k 0) i) f

-- The demand of a packet has 64 sections; number 8 j + i is wanted if bit i of byte j is set.
pub section_states-bit :
    (payload : List ℕ)
    → (length (section_states payload) ≡ 64)
      × ((j i : ℕ)
          → j < 8
          → i < 8
          → get_or (section_states payload) (8 * j + i) false ≡ bit (get_or payload j 0) i)
unfolding section_states
section_states-bit payload = (
  length-demand_from payload 8 0,
  λ j i h small.
      let e : 0 + j ≡ j = omega arith in
      get_or-demand_from payload 8 0 j i h small ∙ ap (λ k. bit (get_or payload k 0) i) e,
)

abbrev applied : {A : Type 0} → (A → A) → Option A → Option A
applied f none = none
applied f (some a) = some (f a)

find-for_clients :
    {P : Type 0} (body : ℕ → ClientState P → ClientState P × List Message) (m : Map (ClientState P))
    (k : ℕ) (s : ClientState P)
    → find k m ≡ some s
    → find k (for_clients body m).0 ≡ some (body k s).0
unfolding find for_clients
find-for_clients body [] k s h = absurd (ground arith)
find-for_clients body ((c, t) ∷ m) k s h = elim (Bool-cases (c == k)) [
  | inl same ↦
      let ck : c ≡ k = ground arith in
      let ts = sym (if_true (c == k) (some t) (find k m) same) ∙ h in
      if_true (c == k) (some (body c t).0) (find k (for_clients body m).0) same
      ∙ ap (applied λ u. (body c u).0) ts
      ∙ ap (λ d. some (body d s).0) ck
  | inr other ↦
      if_false (c == k) (some (body c t).0) (find k (for_clients body m).0) other
      ∙ find-for_clients body m k s (sym (if_false (c == k) (some t) (find k m) other) ∙ h)
]

module _ (lib : PoolLibrary) (dd : DataDictionary) where
  open lib use {Pool}

  handle_packet_demand :
      (now : Moment) (p : Packet) (app : App Pool)
      → p.src ≡ 0x7F
      → p.pgn ≡ 0xE5
      → 8 ≤ length p.payload
      → handle_packet lib dd now p app ≡ receive_demand lib dd now p.payload app
  unfolding handle_packet
  handle_packet_demand now p app src pgn long = ground arith

  -- What the packet makes of a client.
  pub handle_packet-update_client_sections :
      (now : Moment) (p : Packet) (app : App Pool) (partner : ℕ) (s : ClientState Pool)
      → p.src ≡ 0x7F
      → p.pgn ≡ 0xE5
      → 8 ≤ length p.payload
      → find partner app.server.clients ≡ some s
      → find partner (handle_packet lib dd now p app).0.server.clients
        ≡ some (update_client_sections lib dd (section_states p.payload) partner s).0
  handle_packet-update_client_sections now p app partner s src pgn long known =
      ap (λ r. find partner r.0.server.clients) (handle_packet_demand now p app src pgn long)
      ∙ (unfold receive_demand update_section_states in
          find-for_clients (update_client_sections lib dd (section_states p.payload))
            app.server.clients partner s known)

  -- When a packet with the demand of AOG arrives, of 8 bytes or more, a section from 0 to 63 of a client
  -- in automatic with a valid state is on afterwards exactly if its bit is set: bit i of byte j for
  -- section 8 j + i.
  pub handle_packet-demand :
      (now : Moment) (p : Packet) (app : App Pool) (partner : ℕ) (s : ClientState Pool) (j i : ℕ)
      → p.src ≡ 0x7F
      → p.pgn ≡ 0xE5
      → 8 ≤ length p.payload
      → find partner app.server.clients ≡ some s
      → IsValid s
      → s.section_control_enabled ≡ true
      → j < 8
      → i < 8
      → 8 * j + i < s.number_of_sections
      → (s' : ClientState Pool) × (find partner (handle_packet lib dd now p app).0.server.clients
          ≡ some s')
        × ((get_or s'.section_setpoint_states (8 * j + i) 0 == 1) ≡ bit (get_or p.payload j 0) i)
  handle_packet-demand now p app partner s j i src pgn long known v enabled jl il inside =
      let states = section_states p.payload in
      let n = 8 * j + i in
      let s' = (update_client_sections lib dd states partner s).0 in
      let bits = section_states-bit p.payload in
      let whole = bits.0 in
      let set = update_client_sections_setpoints lib dd states partner s n v enabled inside in
      let on = (wanted_state_on states n (get_or s.section_setpoint_states n 0)).0 in
      (
        s',
        handle_packet-update_client_sections now p app partner s src pgn long known,
        ap (λ x. x == 1) set ∙ on (omega (arith, whole)) ∙ bits.1 j i jl il,
      )
