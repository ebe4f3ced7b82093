-- ===== src/SimNet.antt =====
-- simnet.go: the simulated network. A channel is a number, the packets that goroutines wait to hand
-- over are a list; which of them is handed over next is for the caller to say. clock.go: SimClock.
pub mod InHand
pub mod Genuine
pub mod Reorder
pub mod Chance
use go_sliding_window.Base.{
  ℕ, zero, suc, ◌+◌, Bool, true, false, Option, none, some, List, [], ◌∷◌, ◌++◌, String, str_eq,
  if◌then◌else◌, ◌&&◌, not, length, ◌==◌,
}
use go_sliding_window.Base.Int.{ℤ, pos, negsuc, ltb_ℤ, leb_ℤ, eq_ℤ, add_64, sub_64, rem_64, ◌+ℤ◌}
use go_sliding_window.Tcp.{TcpEvent}
use go_sliding_window.Packet.{Packet, Duration, Time}
use go_sliding_window.Wire.Enums.{event_int}

-- `float64` and its order.
pub record FloatOrder : Type 1 where
  pub Float : Type 0
  pub float_zero : Float
  pub lt_float : Float → Float → Bool
  pub le_float : Float → Float → Bool

-- A Go map with strings for keys: the first entry of a key counts.
unfoldable pub lookup {ℓ} : {A : Type ℓ} → String → List (String × A) → Option A
lookup key [] = none
lookup key ((k, v) ∷ m) = if str_eq key k then some v else lookup key m

-- `m[key]++` on `int64`.
unfoldable pub bump : String → List (String × ℤ) → List (String × ℤ)
bump key [] = (key, pos 1) ∷ []
bump key ((k, n) ∷ m) = if str_eq key k then (k, add_64 n (pos 1)) ∷ m else (k, n) ∷ bump key m

-- `*FilterThisEvent[ev]`; a key that is missing or nil counts as 0.
unfoldable pub filter_count : TcpEvent → List (TcpEvent × ℤ) → ℤ
filter_count ev [] = pos 0
filter_count ev ((e, n) ∷ m) = if eq_ℤ (event_int ev) (event_int e) then n else filter_count ev m

-- `(*pCount)--`.
unfoldable pub decrement : TcpEvent → List (TcpEvent × ℤ) → List (TcpEvent × ℤ)
decrement ev [] = []
decrement ev ((e, n) ∷ m) =
    if eq_ℤ (event_int ev) (event_int e) then (e, sub_64 n (pos 1)) ∷ m else (e, n) ∷ decrement ev m

-- A goroutine in `sendWithLatency`.
pub record Delivery : Type 0 where
  pub ch : ℕ
  pub pack : Packet
  pub lat : Duration

module _ (x : FloatOrder) where
  open x use {Float, float_zero, lt_float, le_float}

  pub record SimNet : Type 0 where
    pub net : List (String × ℕ)
    pub loss_prob : Float
    pub latency : Duration
    pub filter_this_event : List (TcpEvent × ℤ)
    pub total_sent : List (String × ℤ)
    pub total_rcvd : List (String × ℤ)
    pub discard_once : ℤ
    pub simulate_reorder_next : ℤ
    pub held_back : Option Packet
    pub duplicate_next : ℕ
    pub allow_black_hole_sends : Bool
    pub under_way : List Delivery

  unfoldable pub new_sim_net : Float → Duration → SimNet
  new_sim_net loss_prob latency = record {
    net = [];
    loss_prob = loss_prob;
    latency = latency;
    filter_this_event = [];
    total_sent = [];
    total_rcvd = [];
    discard_once = negsuc 0;
    simulate_reorder_next = pos 0;
    held_back = none;
    duplicate_next = 0;
    allow_black_hole_sends = false;
    under_way = [];
  }

  -- `Listen`, with the channel that it makes.
  unfoldable pub listen_on : String → ℕ → SimNet → SimNet
  listen_on inbox ch sim = record sim { net = (inbox, ch) ∷ sim.net }

  abbrev pub go_send : ℕ → Packet → Duration → SimNet → SimNet
  go_send ch p lat sim = record sim {
    under_way = sim.under_way ++ record { ch = ch; pack = p; lat = lat } ∷ [];
  }

  abbrev pub release : ℕ → SimNet → Option Packet → SimNet
  release ch sim none = sim
  release ch sim (some held) = record (go_send ch held (add_64 sim.latency (pos 20_000_000)) sim) {
    held_back = none;
  }

  -- The packet that was held back is sent along, on the same channel.
  unfoldable pub release_held : ℕ → SimNet → SimNet
  release_held ch sim = release ch sim sim.held_back

  -- `CompareAndSwapUint32(&sim.DuplicateNext, 1, 0)`.
  unfoldable pub duplicate : ℕ → Packet → SimNet → SimNet
  duplicate ch p sim =
      if sim.duplicate_next == 1
      then go_send ch p sim.latency (record sim { duplicate_next = 0 })
      else sim

  unfoldable pub launch : ℕ → Packet → SimNet → SimNet
  unfolding release_held duplicate
  launch ch p sim = duplicate ch p (release_held ch (go_send ch p sim.latency sim))

  -- `pr` is what `cryptoProb` returned.
  unfoldable pub lose_or_launch : Float → ℕ → Packet → SimNet → SimNet
  unfolding launch
  lose_or_launch pr ch p sim =
      if lt_float float_zero sim.loss_prob && le_float pr sim.loss_prob
      then sim
      else launch ch p sim

  unfoldable pub filter_event : Float → ℕ → Packet → SimNet → SimNet
  unfolding lose_or_launch filter_count decrement
  filter_event pr ch p sim =
      if ltb_ℤ (pos 0) (filter_count p.tcp_event sim.filter_this_event)
      then record sim { filter_this_event = decrement p.tcp_event sim.filter_this_event }
      else lose_or_launch pr ch p sim

  unfoldable pub discard : Float → ℕ → Packet → SimNet → SimNet
  unfolding filter_event
  discard pr ch p sim =
      if leb_ℤ (pos 0) p.seq_num && leb_ℤ p.seq_num sim.discard_once
      then record sim { discard_once = negsuc 0 }
      else filter_event pr ch p sim

  -- A packet is held back, or the switch is reset.
  unfoldable pub hold_back : Float → ℕ → Packet → SimNet → SimNet
  unfolding discard
  hold_back pr ch p sim =
      if eq_ℤ sim.simulate_reorder_next (pos 1)
      then record sim { held_back = some p; simulate_reorder_next = pos 2 }
      else discard pr ch p (record sim { simulate_reorder_next = pos 0 })

  unfoldable pub reorder : Float → ℕ → Packet → SimNet → SimNet
  unfolding discard hold_back
  reorder pr ch p sim =
      if eq_ℤ sim.simulate_reorder_next (pos 0) then discard pr ch p sim else hold_back pr ch p sim

  abbrev pub arrive : Float → Packet → SimNet → Option ℕ → SimNet × Bool
  arrive pr p sim none = (sim, sim.allow_black_hole_sends)
  arrive pr p sim (some ch) = (reorder pr ch p sim, true)

  -- `Send`. The second component says whether it returned no error.
  unfoldable pub sim_send : Float → Packet → SimNet → SimNet × Bool
  unfolding reorder bump lookup
  sim_send pr p sim0 =
      let sim = record sim0 { total_sent = bump p.from sim0.total_sent } in
      arrive pr p sim (lookup p.dest sim.net)

  -- A goroutine hands its packet over: it is no longer under way, and counted.
  unfoldable pub handed_over : List Delivery → Delivery → List Delivery → SimNet → SimNet
  unfolding bump
  handed_over before d after sim = record sim {
    under_way = before ++ after;
    total_rcvd = bump d.pack.dest sim.total_rcvd;
  }

-- `HistoryEqual`.
unfoldable pub same_numbers : List Packet → List Packet → Bool
same_numbers [] b = true
same_numbers (p ∷ a) [] = true
same_numbers (p ∷ a) (q ∷ b) = if eq_ℤ p.seq_num q.seq_num then same_numbers a b else false

unfoldable pub history_equal : List Packet → List Packet → Bool
unfolding same_numbers
history_equal a b = if length a == length b then same_numbers a b else false

abbrev pub resolution : ℤ
resolution = pos 1_048_576

-- What `cryptoProb` divides by `resolution`, for the integer that it has read from random bytes.
unfoldable pub crypto_numerator : ℤ → ℤ
unfolding rem_64 sub_64
crypto_numerator r0 =
    let r = if ltb_ℤ r0 (pos 0) then sub_64 (pos 0) r0 else r0 in
    rem_64 r (add_64 resolution (pos 1))

-- SimClock, whose value is `When`. The mutex makes each call one step.
pub record SimClock : Type 0 where
  pub when : Time

unfoldable pub now : SimClock → Time
now c = c.when

unfoldable pub advance_clock : Duration → SimClock → SimClock × Time
unfolding ◌+ℤ◌
advance_clock d c = let t = c.when +ℤ d in (record { when = t }, t)

unfoldable pub set_clock : Time → SimClock → SimClock
set_clock w c = record { when = w }
