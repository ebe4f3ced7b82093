-- ===== src/Sender/Outstanding.antt =====
-- sender.go, retree.go: which frames the tree by sequence number holds, after each of the changes that
-- the sender makes to it.
use go_sliding_window.Base.{
  ℕ, ◌<◌, ◌≡◌, ◌≢◌, sym, ◌∙◌, ap, ◌⊎◌, inl, inr, false, List, [], ◌∷◌, All, arith, ltb, Bool-cases,
  dec_lt,
}
use go_sliding_window.Base.Int.{pos, pos_part, ltb_ℤ, sub_64, sub_64_pos, sub_64_neg, two_63}
use go_sliding_window.Packet.{TxqSlot}
use go_sliding_window.Externals.{Agrees, IsKeyed, insert_by, erase_by}
use go_sliding_window.Retree.{compare_seq_num}

-- Frame `k` is in one of the slots.
abbrev pub Covers : List TxqSlot → ℕ → Type 0
Covers [] k = ⊥
Covers (s ∷ ss) k = (s.pack.seq_num ≡ pos k) ⊎ Covers ss k

-- The slot carries a data frame, numbered below 2^63.
abbrev pub Framed : TxqSlot → Type 0
Framed s = (j : ℕ) × (s.pack.seq_num ≡ pos j) × (j < two_63)

abbrev pub number_of : TxqSlot → ℕ
number_of s = pos_part s.pack.seq_num

compare-less :
    (i j : ℕ)
    → i < two_63
    → j < two_63
    → (ltb_ℤ (sub_64 (pos i) (pos j)) (pos 0) ≡ ltb i j)
      × (ltb_ℤ (pos 0) (sub_64 (pos i) (pos j)) ≡ ltb j i)
compare-less i j hi hj = elim (dec_lt i j) [
  | yes lt ↦ rw (sub_64_neg i j lt hj) (ground arith, ground arith)
  | no ge ↦ rw (sub_64_pos i j (omega arith) hi) (ground arith, ground arith)
]

Framed-Agrees : (a b : TxqSlot) → Framed a → Framed b → Agrees compare_seq_num number_of a b
unfolding compare_seq_num
Framed-Agrees a b (i, ei, hi) (j, ej, hj) = rw (ei, ej) (compare-less i j hi hj)

Framed-row :
    (a : TxqSlot) (xs : List TxqSlot)
    → Framed a
    → All Framed xs
    → All (λ b. Agrees compare_seq_num number_of a b × Agrees compare_seq_num number_of b a) xs
Framed-row a [] h hs = tt
Framed-row a (b ∷ xs) h hs =
    ((Framed-Agrees a b h hs.0, Framed-Agrees b a hs.0 h), Framed-row a xs h hs.1)

Framed-table :
    (xs ys : List TxqSlot)
    → All Framed xs
    → All Framed ys
    → All
        (λ a.
          All (λ b. Agrees compare_seq_num number_of a b × Agrees compare_seq_num number_of b a) ys)
        xs
Framed-table [] ys hx hy = tt
Framed-table (a ∷ xs) ys hx hy = (Framed-row a ys hx.0 hy, Framed-table xs ys hx.1 hy)

-- `CompareSeqNum` orders slots of data frames by their numbers.
pub Framed-IsKeyed : (xs : List TxqSlot) → All Framed xs → IsKeyed compare_seq_num number_of xs
Framed-IsKeyed xs h = Framed-table xs xs h h

-- Two frames with neither before the other are one.
same_number :
    (s y : TxqSlot) (k : ℕ)
    → Framed s
    → Framed y
    → ltb (number_of s) (number_of y) ≡ false
    → ltb (number_of y) (number_of s) ≡ false
    → s.pack.seq_num ≡ pos k
    → y.pack.seq_num ≡ pos k
same_number s y k (i, ei, hi) (j, ej, hj) a b e =
    let same : i ≡ j = ground (arith, rw (ei, ej) at a, rw (ei, ej) at b) in
    ej ∙ ap pos (sym same) ∙ sym ei ∙ e

-- An insertion adds its frame, or finds it there, and drops no other.
pub insert_by-Covers :
    (s : TxqSlot) (l : List TxqSlot) (k : ℕ)
    → Framed s
    → All Framed l
    → (s.pack.seq_num ≡ pos k) ⊎ Covers l k
    → Covers (insert_by number_of s l) k
unfolding insert_by
insert_by-Covers s [] k hs hl c = c
insert_by-Covers s (y ∷ ys) k hs hl c = elim (Bool-cases (ltb (number_of s) (number_of y))) [
  | inl lt ↦ rw lt c
  | inr ge ↦ elim (Bool-cases (ltb (number_of y) (number_of s))) [
    | inl gt ↦ rw (ge, gt) (further (insert_by-Covers s ys k hs hl.1) c)
    | inr le ↦ rw (ge, le) (found ge le c)
  ]
]
  where
    further :
        ((s.pack.seq_num ≡ pos k) ⊎ Covers ys k → Covers (insert_by number_of s ys) k)
        → (s.pack.seq_num ≡ pos k) ⊎ Covers (y ∷ ys) k
        → Covers (y ∷ insert_by number_of s ys) k
    further f (inl e) = inr (f (inl e))
    further f (inr (inl e)) = inl e
    further f (inr (inr m)) = inr (f (inr m))

    found :
        ltb (number_of s) (number_of y) ≡ false
        → ltb (number_of y) (number_of s) ≡ false
        → (s.pack.seq_num ≡ pos k) ⊎ Covers (y ∷ ys) k
        → Covers (y ∷ ys) k
    found a b (inl e) = inl (same_number s y k hs hl.0 a b e)
    found a b (inr m) = m

-- A deletion drops its frame and no other.
pub erase_by-Covers :
    (s : TxqSlot) (l : List TxqSlot) (k : ℕ)
    → Framed s
    → All Framed l
    → s.pack.seq_num ≢ pos k
    → Covers l k
    → Covers (erase_by number_of s l) k
unfolding erase_by
erase_by-Covers s [] k hs hl ne c = c
erase_by-Covers s (y ∷ ys) k hs hl ne c = elim (Bool-cases (ltb (number_of s) (number_of y))) [
  | inl lt ↦ rw lt (further (erase_by-Covers s ys k hs hl.1 ne) c)
  | inr ge ↦ elim (Bool-cases (ltb (number_of y) (number_of s))) [
    | inl gt ↦ rw (ge, gt) (further (erase_by-Covers s ys k hs hl.1 ne) c)
    | inr le ↦ rw (ge, le) (gone ge le c)
  ]
]
  where
    further :
        (Covers ys k → Covers (erase_by number_of s ys) k)
        → Covers (y ∷ ys) k
        → Covers (y ∷ erase_by number_of s ys) k
    further f (inl e) = inl e
    further f (inr m) = inr (f m)

    gone :
        ltb (number_of s) (number_of y) ≡ false
        → ltb (number_of y) (number_of s) ≡ false
        → Covers (y ∷ ys) k
        → Covers ys k
    gone a b (inl e) = absurd (ne (same_number y s k hl.0 hs b a e))
    gone a b (inr m) = m
