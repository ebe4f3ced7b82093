-- ===== src/SimNet/Reorder.antt =====
-- simnet.go: two packets that change places, and the history that shows it.
use go_sliding_window.Base.{
  ℕ, suc, ◌≡◌, ◌↔◌, refl, ◌∙◌, ap, subst, sym, Bool, true, false, ◌&&◌, none, some, List, [], ◌∷◌,
  ◌++◌, append_assoc, arith, ◌==◌, length, Bool-cases, inl, inr,
}
use go_sliding_window.Base.Int.{ℤ, pos, negsuc, leb_ℤ, eq_ℤ, eq_ℤ-true, eq_ℤ_self, add_64}
use go_sliding_window.Packet.{Packet}
use go_sliding_window.SimNet.{
  FloatOrder, SimNet, lookup, bump, release_held, duplicate, launch, lose_or_launch, filter_event,
  filter_count, discard, hold_back, reorder, sim_send, same_numbers, history_equal,
}

module _ (x : FloatOrder) where
  open x use {Float, float_zero, lt_float, le_float}

  -- No switch but that for the order is on, and nothing is lost.
  pub record IsPlain (sim : SimNet x) : Type 0 where
    pub no_loss : lt_float float_zero sim.loss_prob ≡ false
    pub no_filter : sim.filter_this_event ≡ []
    pub no_discard : sim.discard_once ≡ negsuc 0
    pub no_duplicate : sim.duplicate_next ≡ 0

  not_discarded : (n : ℤ) → (leb_ℤ (pos 0) n && leb_ℤ n (negsuc 0)) ≡ false
  not_discarded (pos n) = ground arith
  not_discarded (negsuc n) = ground arith

  discard-plain :
      (pr : Float) (ch : ℕ) (p : Packet) (sim : SimNet x)
      → IsPlain sim
      → discard x pr ch p sim ≡ launch x ch p sim
  unfolding discard filter_event lose_or_launch filter_count
  discard-plain pr ch p sim h =
      rw (h.no_discard, not_discarded p.seq_num, h.no_filter, h.no_loss) refl

  held_first :
      (pr : Float) (c : ℕ) (p : Packet) (sim : SimNet x)
      → sim.simulate_reorder_next ≡ pos 1
      → lookup p.dest sim.net ≡ some c
      → sim_send x pr p sim ≡ (
        (record sim {
          total_sent = bump p.from sim.total_sent;
          held_back = some p;
          simulate_reorder_next = pos 2;
        }),
        true,
      )
  unfolding sim_send reorder hold_back
  held_first pr c p sim one found = rw (found, one) refl

  second_sent :
      (pr : Float) (d : ℕ) (q : Packet) (sim : SimNet x)
      → sim.simulate_reorder_next ≡ pos 2
      → lookup q.dest sim.net ≡ some d
      → (sim_send x pr q sim).0
        ≡ discard x pr d q
            (record sim { total_sent = bump q.from sim.total_sent; simulate_reorder_next = pos 0 })
  unfolding sim_send reorder hold_back
  second_sent pr d q sim two found = rw (found, two) refl

  -- The packets under way, after a packet was sent with `p` held back.
  abbrev pub Overtakes : SimNet x → ℕ → Packet → Packet → SimNet x → Type 0
  Overtakes sim d p q after =
      (after.under_way
        ≡ sim.under_way
          ++ record { ch = d; pack = q; lat = sim.latency }
            ∷ record { ch = d; pack = p; lat = add_64 sim.latency (pos 20_000_000) }
            ∷ [])
      × (after.held_back ≡ none)
      × (after.simulate_reorder_next ≡ sim.simulate_reorder_next)

  launch-Overtakes :
      (d : ℕ) (p q : Packet) (sim : SimNet x)
      → sim.held_back ≡ some p
      → sim.duplicate_next ≡ 0
      → Overtakes sim d p q (launch x d q sim)
  unfolding launch release_held duplicate
  launch-Overtakes d p q sim held once =
      rw (held, once) (append_assoc sim.under_way _ _, refl, refl)

  -- With the order to be changed and nothing else, the first of two packets is held back; the second
  -- goes out at once, and the first after it, on the channel of the second, whatever inbox it is
  -- addressed to.
  pub sim_send-Overtakes :
      (pr pr' : Float) (c d : ℕ) (p q : Packet) (sim : SimNet x)
      → IsPlain sim
      → sim.simulate_reorder_next ≡ pos 1
      → lookup p.dest sim.net ≡ some c
      → lookup q.dest sim.net ≡ some d
      → Overtakes
          (record sim { simulate_reorder_next = pos 0 })
          d
          p
          q
          (sim_send x pr' q (sim_send x pr p sim).0).0
  sim_send-Overtakes pr pr' c d p q sim h one to_p to_q =
      let next : SimNet x = record sim {
        total_sent = bump q.from (bump p.from sim.total_sent);
        held_back = some p;
        simulate_reorder_next = pos 0;
      } in
      let plain : IsPlain next = record {
        no_loss = h.no_loss;
        no_filter = h.no_filter;
        no_discard = h.no_discard;
        no_duplicate = h.no_duplicate;
      } in
      let first =
        ap (λ (r : SimNet x × Bool). (sim_send x pr' q r.0).0) (held_first pr c p sim one to_p) in
      let second =
        second_sent pr' d q
          (record next { total_sent = bump p.from sim.total_sent; simulate_reorder_next = pos 2 })
          refl to_q in
      let whole = first ∙ second ∙ discard-plain pr' d q next plain in
      subst (Overtakes (record sim { simulate_reorder_next = pos 0 }) d p q) (sym whole)
        (launch-Overtakes d p q next refl h.no_duplicate)

abbrev pub numbers : List Packet → List ℤ
numbers [] = []
numbers (p ∷ a) = p.seq_num ∷ numbers a

length-numbers : (a : List Packet) → length (numbers a) ≡ length a
length-numbers [] = refl
length-numbers (p ∷ a) = ap suc (length-numbers a)

same_numbers_iff :
    (a b : List Packet) → length a ≡ length b → (same_numbers a b ≡ true) ↔ (numbers a ≡ numbers b)
unfolding same_numbers
same_numbers_iff [] [] h = (λ e. refl, λ e. refl)
same_numbers_iff [] (q ∷ b) h = absurd (omega (arith, h))
same_numbers_iff (p ∷ a) [] h = absurd (omega (arith, h))
same_numbers_iff (p ∷ a) (q ∷ b) h =
    let rest = same_numbers_iff a b (omega (arith, h)) in
    elim (Bool-cases (eq_ℤ p.seq_num q.seq_num)) [
      | inl t ↦ rw t (
        λ e.
            let tails : numbers a ≡ numbers b = rest.0 e in
            rw (eq_ℤ-true p.seq_num q.seq_num t, tails) refl,
        λ e. let tails : numbers a ≡ numbers b = cc in rest.1 tails,
      )
      | inr f ↦ rw f (
        λ e. absurd (cc),
        λ e.
            let heads : p.seq_num ≡ q.seq_num = cc in
            let same : eq_ℤ p.seq_num q.seq_num ≡ true =
              ap (eq_ℤ p.seq_num) (sym heads) ∙ eq_ℤ_self p.seq_num in
            absurd (cc),
      )
    ]

-- Two histories are equal for `HistoryEqual` exactly if they have the same sequence numbers in the
-- same order.
pub history_equal_iff : (a b : List Packet) → (history_equal a b ≡ true) ↔ (numbers a ≡ numbers b)
unfolding history_equal
history_equal_iff a b = elim (Bool-cases (length a == length b)) [
  | inl t ↦ let same : length a ≡ length b = ground (arith, t) in rw t (same_numbers_iff a b same)
  | inr f ↦ rw f (
    λ e. absurd (cc),
    λ e.
        let lens = ap length e in
        let same : (length a == length b) ≡ true =
          ground (arith, lens, length-numbers a, length-numbers b) in
        absurd (cc),
  )
]
