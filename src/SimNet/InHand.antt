-- ===== src/SimNet/InHand.antt =====
-- simnet.go: what Send does to the packets that the simulated network has in hand.
use go_sliding_window.Base.{
  ℕ, ◌+◌, ◌≤◌, ◌≡◌, refl, ap, Option, none, some, [], ◌∷◌, length, length-append, All, All-append,
  arith, if_elim, ◌==◌,
}
use go_sliding_window.Base.Int.{ℤ, pos, negsuc, eq_ℤ}
use go_sliding_window.Packet.{Packet}
use go_sliding_window.SimNet.{
  FloatOrder, SimNet, Delivery, lookup, bump, go_send, release, arrive, launch, lose_or_launch,
  filter_event, discard, hold_back, reorder, sim_send,
}

module _ (x : FloatOrder) where
  open x use {Float, float_zero, lt_float, le_float}

  abbrev pub HeldIs : (Packet → Type 0) → Option Packet → Type 0
  HeldIs Q none = Unit
  HeldIs Q (some p) = Q p

  pub HeldIs-map :
      (P Q : Packet → Type 0) (held : Option Packet)
      → ((q : Packet) → P q → Q q)
      → HeldIs P held
      → HeldIs Q held
  HeldIs-map P Q none f h = tt
  HeldIs-map P Q (some p) f h = f p h

  -- Every packet that is under way or held back satisfies `Q`.
  abbrev pub Carries : (Packet → Type 0) → SimNet x → Type 0
  Carries Q sim = All (λ (d : Delivery). Q d.pack) sim.under_way × HeldIs Q sim.held_back

  abbrev pub held_count : Option Packet → ℕ
  held_count none = 0
  held_count (some p) = 1

  -- How many packets the network has in hand.
  abbrev pub in_hand : SimNet x → ℕ
  in_hand sim = length sim.under_way + held_count sim.held_back

  module _ (Q : Packet → Type 0) (p : Packet) where
    -- A packet more is in hand, or two.
    abbrev Handled : SimNet x → SimNet x → Type 0
    Handled sim0 sim = (Q p → Carries Q sim0 → Carries Q sim) × (in_hand sim ≤ in_hand sim0 + 2)

    go_send-Carries :
        (ch : ℕ) (q : Packet) (lat : ℤ) (sim : SimNet x)
        → Q q
        → Carries Q sim
        → Carries Q (go_send x ch q lat sim)
    go_send-Carries ch q lat sim ok c =
        (All-append (λ (d : Delivery). Q d.pack) sim.under_way _ c.0 (ok, tt), c.1)

    release-Carries :
        (ch : ℕ) (sim : SimNet x) (held : Option Packet)
        → HeldIs Q held
        → Carries Q sim
        → Carries Q (release x ch sim held)
    release-Carries ch sim none h c = c
    release-Carries ch sim (some q) h c =
        (All-append (λ (d : Delivery). Q d.pack) sim.under_way _ c.0 (h, tt), tt)

    in_hand-release :
        (ch : ℕ) (sim : SimNet x) (held : Option Packet)
        → sim.held_back ≡ held
        → in_hand (release x ch sim held) ≤ in_hand sim
    in_hand-release ch sim none e = omega arith
    in_hand-release ch sim (some q) e =
        let one = ap held_count e in omega (arith, one, length-append {0})

    launch-Handled : (ch : ℕ) (sim : SimNet x) → Handled sim (launch x ch p sim)
    unfolding launch
    launch-Handled ch sim =
        let sim1 = go_send x ch p sim.latency sim in
        let sim2 = release x ch sim1 sim1.held_back in
        let less = in_hand-release ch sim1 sim1.held_back refl in
        let sim3 = record sim2 { duplicate_next = 0 } in
        let more =
          length-append sim.under_way (record { ch = ch; pack = p; lat = sim.latency } ∷ []) in
        let more' =
          length-append sim2.under_way (record { ch = ch; pack = p; lat = sim2.latency } ∷ []) in
        if_elim (Handled sim) (sim2.duplicate_next == 1) (go_send x ch p sim2.latency sim3) sim2
          (
            (λ ok c. go_send-Carries ch p sim2.latency sim3 ok (
                release-Carries ch sim1 sim1.held_back c.1
                  (go_send-Carries ch p sim.latency sim ok c))),
            omega (arith, less, more, more'),
          )
          (
            (λ ok c.
                release-Carries ch sim1 sim1.held_back c.1
                  (go_send-Carries ch p sim.latency sim ok c)),
            omega (arith, less, more),
          )

    lose_or_launch-Handled :
        (pr : Float) (ch : ℕ) (sim : SimNet x) → Handled sim (lose_or_launch x pr ch p sim)
    unfolding lose_or_launch
    lose_or_launch-Handled pr ch sim =
        if_elim (Handled sim) _ sim (launch x ch p sim) ((λ ok c. c), omega arith)
          (launch-Handled ch sim)

    filter_event-Handled :
        (pr : Float) (ch : ℕ) (sim : SimNet x) → Handled sim (filter_event x pr ch p sim)
    unfolding filter_event
    filter_event-Handled pr ch sim =
        if_elim (Handled sim) _ (record sim { filter_this_event = _ })
          (lose_or_launch x pr ch p sim) ((λ ok c. c), omega arith)
          (lose_or_launch-Handled pr ch sim)

    discard-Handled : (pr : Float) (ch : ℕ) (sim : SimNet x) → Handled sim (discard x pr ch p sim)
    unfolding discard
    discard-Handled pr ch sim =
        if_elim (Handled sim) _ (record sim { discard_once = negsuc 0 })
          (filter_event x pr ch p sim) ((λ ok c. c), omega arith) (filter_event-Handled pr ch sim)

    hold_back-Handled :
        (pr : Float) (ch : ℕ) (sim : SimNet x) → Handled sim (hold_back x pr ch p sim)
    unfolding hold_back
    hold_back-Handled pr ch sim =
        if_elim (Handled sim) (eq_ℤ sim.simulate_reorder_next (pos 1))
          (record sim { held_back = some p; simulate_reorder_next = pos 2 })
          (discard x pr ch p (record sim { simulate_reorder_next = pos 0 }))
          ((λ ok c. (c.0, ok)), omega arith)
          (discard-Handled pr ch (record sim { simulate_reorder_next = pos 0 }))

    reorder-Handled : (pr : Float) (ch : ℕ) (sim : SimNet x) → Handled sim (reorder x pr ch p sim)
    unfolding reorder
    reorder-Handled pr ch sim =
        if_elim (Handled sim) (eq_ℤ sim.simulate_reorder_next (pos 0)) (discard x pr ch p sim)
          (hold_back x pr ch p sim) (discard-Handled pr ch sim) (hold_back-Handled pr ch sim)

    arrive-Handled :
        (pr : Float) (sim : SimNet x) (found : Option ℕ) → Handled sim (arrive x pr p sim found).0
    arrive-Handled pr sim none = ((λ ok c. c), omega arith)
    arrive-Handled pr sim (some ch) = reorder-Handled pr ch sim

    pub sim_send-Handled : (pr : Float) (sim : SimNet x) → Handled sim (sim_send x pr p sim).0
    unfolding sim_send
    sim_send-Handled pr sim =
        arrive-Handled pr (record sim { total_sent = bump p.from sim.total_sent })
          (lookup p.dest sim.net)
