-- ===== src/SimNet/Genuine.antt =====
-- simnet.go: what the simulated network hands over was sent.
use go_sliding_window.Base.{
  ℕ, ◌+◌, ◌*◌, ◌≤◌, ◌≡◌, refl, subst, ap, Bool, Option, none, some, List, [], ◌∷◌, ◌++◌, String,
  length, length-append, All, All-append, get_elem?, arith,
}
use go_sliding_window.Base.Int.{ℤ}
use go_sliding_window.Tcp.{TcpEvent}
use go_sliding_window.Packet.{Packet}
use go_sliding_window.Sender.History.{
  All-map, All-append_left, All-append_right, get_elem?-append, get_elem?-last,
}
use go_sliding_window.SimNet.{FloatOrder, SimNet, Delivery, sim_send, handed_over, listen_on}
use go_sliding_window.SimNet.InHand.{
  HeldIs, HeldIs-map, Carries, held_count, in_hand, sim_send-Handled,
}

module _ (x : FloatOrder) where
  open x use {Float, float_zero, lt_float, le_float}

  -- The packets that are sent and those that are handed over, in the order in which it happens. The
  -- switches may be set at any time, and inboxes added.
  pub data Run (start : SimNet x) : List Packet → List Delivery → SimNet x → Type 0 where
    started : Run start [] [] start
    sent :
        {ps : List Packet} {ds : List Delivery} {sim : SimNet x} (pr : Float) (p : Packet)
        → Run start ps ds sim
        → Run start (ps ++ p ∷ []) ds (sim_send x pr p sim).0
    handed :
        {ps : List Packet} {ds : List Delivery} {sim : SimNet x} (before after : List Delivery)
        (d : Delivery)
        → Run start ps ds sim
        → sim.under_way ≡ before ++ d ∷ after
        → Run start ps (ds ++ d ∷ []) (handed_over x before d after sim)
    listened :
        {ps : List Packet} {ds : List Delivery} {sim : SimNet x} (inbox : String) (ch : ℕ)
        → Run start ps ds sim
        → Run start ps ds (listen_on x inbox ch sim)
    switched :
        {ps : List Packet} {ds : List Delivery} {sim : SimNet x} (filters : List (TcpEvent × ℤ))
        (discard_once reorder_next : ℤ) (duplicate_next : ℕ) (allow : Bool)
        → Run start ps ds sim
        → Run start ps ds (record sim {
          filter_this_event = filters;
          discard_once = discard_once;
          simulate_reorder_next = reorder_next;
          duplicate_next = duplicate_next;
          allow_black_hole_sends = allow;
        })

  abbrev pub IsOneOf : List Packet → Packet → Type 0
  IsOneOf ps q = (i : ℕ) × (get_elem? ps i ≡ some q)

  one_more : (ps : List Packet) (p q : Packet) → IsOneOf ps q → IsOneOf (ps ++ p ∷ []) q
  one_more ps p q (i, h) = (i, get_elem?-append ps i q p h)

  Carries-map :
      (P Q : Packet → Type 0) (sim : SimNet x)
      → ((q : Packet) → P q → Q q)
      → Carries x P sim
      → Carries x Q sim
  Carries-map P Q sim f c = (
    All-map (λ (d : Delivery). P d.pack) (λ (d : Delivery). Q d.pack) sim.under_way (λ d. f d.pack)
        c.0,
    HeldIs-map x P Q sim.held_back f c.1,
  )

  nothing_held :
      (held : Option Packet) → held_count x held ≡ 0 → (Q : Packet → Type 0) → HeldIs x Q held
  nothing_held none h Q = tt
  nothing_held (some p) h Q = absurd (omega (arith, h))

  nothing_under_way : (ds : List Delivery) → length ds ≡ 0 → (Q : Delivery → Type 0) → All Q ds
  nothing_under_way [] h Q = tt
  nothing_under_way (d ∷ ds) h Q = absurd (omega (arith, h))

  run-Carries :
      {start sim : SimNet x} {ps : List Packet} {ds : List Delivery}
      → in_hand x start ≡ 0
      → Run start ps ds sim
      → Carries x (IsOneOf ps) sim
        × All (λ (d : Delivery). IsOneOf ps d.pack) ds
        × (length ds + in_hand x sim ≤ 2 * length ps)
  unfolding handed_over listen_on
  run-Carries {start} empty started = (
    (
      nothing_under_way start.under_way (omega (arith, empty)) _,
      nothing_held start.held_back (omega (arith, empty)) _,
    ),
    tt,
    omega (arith, empty),
  )
  run-Carries empty (sent {ps} {ds} {sim} pr p run) =
      let (c, ok, few) = run-Carries empty run in
      let step = sim_send-Handled x (IsOneOf (ps ++ p ∷ [])) p pr sim in
      let here : IsOneOf (ps ++ p ∷ []) p = (length ps, get_elem?-last ps (length ps) p refl) in
      (
        step.0 here (Carries-map (IsOneOf ps) (IsOneOf (ps ++ p ∷ [])) sim (one_more ps p) c),
        All-map _ _ ds (λ (d : Delivery). one_more ps p d.pack) ok,
        omega (arith, few, step.1, length-append ps (p ∷ [])),
      )
  run-Carries empty (handed {ps} {ds} {sim} before after d run split) =
      let (c, ok, few) = run-Carries empty run in
      let Q : Delivery → Type 0 = λ e. IsOneOf ps e.pack in
      let both = subst (All Q) split c.0 in
      let rest = All-append_right Q before (d ∷ after) both in
      let count = ap length split in
      (
        (All-append Q before after (All-append_left Q before (d ∷ after) both) rest.1, c.1),
        All-append Q ds (d ∷ []) ok (rest.0, tt),
        omega (
          arith,
          few,
          count,
          length-append ds (d ∷ []),
          length-append before (d ∷ after),
          length-append before after,
        ),
      )
  run-Carries empty (listened inbox ch run) = run-Carries empty run
  run-Carries empty (switched filters discard_once reorder_next duplicate_next allow run) =
      run-Carries empty run

  -- In a run from a network with nothing in hand, every packet that is handed over is one of those
  -- that were sent, and at most twice as many are handed over as were sent, whatever is lost, held
  -- back, repeated or filtered.
  pub run-IsGenuine :
      {start sim : SimNet x} {ps : List Packet} {ds : List Delivery}
      → in_hand x start ≡ 0
      → Run start ps ds sim
      → All (λ (d : Delivery). IsOneOf ps d.pack) ds × (length ds ≤ 2 * length ps)
  run-IsGenuine empty run = let (c, ok, few) = run-Carries empty run in (ok, omega (arith, few))
