-- ===== src/Recv/Stream.antt =====
-- recv.go: a whole stream of data packets, in any order, with losses and repetitions.
use go_sliding_window.Base.{
  ℕ, zero, suc, ◌+◌, ◌≤◌, ◌<◌, ◌≡◌, refl, ◌∙◌, subst, ◌⊎◌, inl, inr, some, List, [], ◌∷◌, All,
  AllFrom, length, arith, dec_lt,
}
use go_sliding_window.Base.Int.{pos, two_63}
use go_sliding_window.Packet.{Packet, RxqSlot}
use go_sliding_window.Recv.{Rx, new_rx}
use go_sliding_window.Recv.Frames.{Has, not-Has}
use go_sliding_window.Recv.Data.{store_data}
use go_sliding_window.Recv.Order.{IsOrdered, Frame}
use go_sliding_window.Recv.Receive.{
  receive, after_store, Inv, new_rx-Inv, Received, store_data-Received,
}

-- The last element of a list satisfies the predicate at the last index.
pub AllFrom-last {ℓ κ} :
    {A : Type ℓ} (P : ℕ → A → Type κ) (i l : ℕ) (xs : List A)
    → AllFrom P i xs
    → length xs ≡ suc l
    → (x : A) × P (i + l) x
AllFrom-last P i l [] h e = absurd (omega arith)
AllFrom-last P i zero (x ∷ xs) h e =
    let eq : i ≡ i + 0 = omega arith in (x, subst (λ k. P k x) eq h.0)
AllFrom-last P i (suc l) (x ∷ xs) h e =
    let (y, q) = AllFrom-last P (suc i) l xs h.1 (omega arith) in
    let eq : suc i + l ≡ i + suc l = omega arith in (y, subst (λ k. P k y) eq q)

-- Frame `k` is carried by one of the packets.
abbrev pub Occurs : ℕ → List Packet → Type 0
Occurs k [] = ⊥
Occurs k (p ∷ ps) = (p.seq_num ≡ pos k) ⊎ Occurs k ps

receive_nil : (r : Rx) → receive r [] ≡ some r
unfolding receive
receive_nil r = refl

receive_cons :
    (r r' : Rx) (p : Packet) (ps : List Packet)
    → after_store (store_data r p) ≡ some r'
    → receive r (p ∷ ps) ≡ receive r' ps
unfolding receive
receive_cons r r' p ps e = ground arith

seen_adds :
    {w : ℕ} (m : ℕ) (q : List RxqSlot) (k : ℕ) (ps : List Packet)
    → k < w
    → Occurs k ps
    → All (λ p. (k : ℕ) → p.seq_num ≡ pos k → k < 0 + w → Has w m q k) ps
    → Has w m q k
seen_adds m q k [] lt o a = elim o [ ]
seen_adds m q k (p ∷ ps) lt (inl e) a = a.0 k e (omega arith)
seen_adds m q k (p ∷ ps) lt (inr o) a = seen_adds m q k ps lt o a.1

-- Frames below `bound`, of which `Q` is known.
module _ (Q : ℕ → Packet → Type 0) (w bound : ℕ) where
  abbrev pub Below : ℕ → Packet → Type 0
  Below k p = (k < bound) × Q k p

  -- A data packet that carries frame `k` for some `k`.
  abbrev pub IsFrame : Packet → Type 0
  IsFrame p = (k : ℕ) × (p.seq_num ≡ pos k) × (Below k p)

  pub frames-le-bound : (n : ℕ) (r : Rx) → IsOrdered Below w n r → n ≤ bound
  frames-le-bound zero r v = omega arith
  frames-le-bound (suc n) r v =
      let (p, q) = AllFrom-last (Frame Below w) 0 n r.recv_history v.history v.history_len in
      omega arith

  -- What a stream does that starts at `NextFrameExpected = n`; `start` is `n` or an earlier value.
  pub record Streamed (start n : ℕ) (r : Rx) (ps : List Packet) : Type 0 where
    pub m : ℕ
    pub after : Rx
    pub returns : receive r ps ≡ some after
    pub forward : n ≤ m
    pub inv : Inv Below w m after
    pub keeps : (j : ℕ) → Has w n r.rxq j → Has w m after.rxq j
    pub adds : All (λ p. (k : ℕ) → p.seq_num ≡ pos k → k < start + w → Has w m after.rxq k) ps

  receive_step :
      (start n k : ℕ) (r : Rx) (p : Packet) (ps : List Packet)
      → start ≤ n
      → p.seq_num ≡ pos k
      → (one : Received Below w n k r (after_store (store_data r p)))
      → Streamed start one.m one.after ps
      → Streamed start n r (p ∷ ps)
  receive_step start n k r p ps le e one rest = record {
    m = rest.m;
    after = rest.after;
    returns = receive_cons r one.after p ps one.returns ∙ rest.returns;
    forward = omega (arith, one.forward, rest.forward);
    inv = rest.inv;
    keeps = λ j x. rest.keeps j ((one.set_grows j).1 (inl x));
    adds = (
      λ j ej lt.
          let same : j ≡ k = ground (arith, e, ej) in
          rest.keeps j ((one.set_grows j).1 (inr (same, omega arith))),
      rest.adds,
    );
  }

  pub receive_lem :
      (start n : ℕ) (r : Rx) (ps : List Packet)
      → bound + w + 1 < two_63
      → start ≤ n
      → All IsFrame ps
      → Inv Below w n r
      → Streamed start n r ps
  receive_lem start n r [] b le h v = record {
    m = n;
    after = r;
    returns = receive_nil r;
    forward = omega arith;
    inv = v;
    keeps = λ j x. x;
    adds = tt;
  }
  receive_lem start n r (p ∷ ps) b le h v =
      let small = frames-le-bound n r v.ordered in
      let one = store_data-Received Below w n h.0.0 r p h.0.1 h.0.2 (omega arith) v in
      receive_step start n h.0.0 r p ps le h.0.1 one
        (receive_lem start one.m one.after ps b (omega (arith, one.forward)) h.1 one.inv)

  -- Whatever data packets a new receiver gets, in whatever order, with losses and repetitions, it
  -- does not fault, and its history is the frames 0, 1, 2, … up to the least frame that it has not
  -- got, each once and in order, and each with what is known of the packets of that frame.
  pub in_order_exactly_once :
      (ps : List Packet)
      → 0 < w
      → bound + w + 1 < two_63
      → All IsFrame ps
      → (m : ℕ) × (after : Rx) × (receive (new_rx w) ps ≡ some after)
        × (length after.recv_history ≡ m)
        × AllFrom (λ k p. (p.seq_num ≡ pos k) × Below k p) 0 after.recv_history
        × (¬ Has w m after.rxq m)
  in_order_exactly_once ps pw b h =
      let s = receive_lem 0 0 (new_rx w) ps b (omega arith) h (new_rx-Inv Below w pw) in
      (
        s.m,
        s.after,
        s.returns,
        s.inv.ordered.history_len,
        s.inv.ordered.history,
        not-Has w s.m s.after.rxq s.inv.idle,
      )

  -- If each of the frames below `n` is among the packets, and the window spans them, all are
  -- delivered, whatever the order.
  pub every_frame_delivered :
      (n : ℕ) (ps : List Packet)
      → n ≤ w
      → 0 < w
      → bound + w + 1 < two_63
      → All IsFrame ps
      → ((k : ℕ) → k < n → Occurs k ps)
      → (after : Rx) × (receive (new_rx w) ps ≡ some after) × (n ≤ length after.recv_history)
  every_frame_delivered n ps nw pw b h all =
      let s = receive_lem 0 0 (new_rx w) ps b (omega arith) h (new_rx-Inv Below w pw) in
      let missing = not-Has w s.m s.after.rxq s.inv.idle in
      (
        s.after,
        s.returns,
        elim (dec_lt s.m n) [
          | yes lt ↦
              absurd (missing (seen_adds s.m s.after.rxq s.m ps (omega arith) (all s.m lt) s.adds))
          | no ge ↦ omega (arith, s.inv.ordered.history_len)
        ],
      )
