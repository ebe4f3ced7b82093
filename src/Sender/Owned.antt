-- ===== src/Sender/Owned.antt =====
-- sender.go: no entry of `Txq` is taken while a slot in one of the trees is that entry: then a write changes
-- the number of no frame, and the tree by sequence number keeps its frames.
use go_sliding_window.Base.{
  ℕ, ◌≡◌, refl, sym, ◌∙◌, ap, inl, inr, Bool-cases, if◌then◌else◌, ◌⊎◌, ◌≢◌, List, [], ◌∷◌, All,
  subst, length, get_elem?-lt, arith, ◌<◌,
}
use go_sliding_window.Base.Int.{two_63, ℤ, pos, eq_ℤ, eq_ℤ-true, eq_ℤ_self}
use go_sliding_window.Packet.{TxqSlot}
use go_sliding_window.Externals.{Externals, TreeLaws, map_slots}
use go_sliding_window.Retree.{compare_seq_num}
use go_sliding_window.Sender.Send.{place, write_through, insert_written}
use go_sliding_window.Sender.Outstanding.{Covers, Framed}
use go_sliding_window.Sender.SeqTree.{SeqTree, insert-SeqTree, insert-Covers}
use go_sliding_window.Sender.History.{All-map, SlotSent}
use go_sliding_window.Sender.{SenderState}
use go_sliding_window.Packet.{Packet}
use go_sliding_window.Sender.Writes.{write_through_either, All-map_items}

-- `owner` gives the number of the frame that has an entry of `Txq`: each slot is of its owner.
abbrev pub IsOwned : ℤ → (ℤ → ℤ) → TxqSlot → Type 0
IsOwned w owner s = owner (place w s) ≡ s.pack.seq_num

-- Where entries are owned, a write changes the number of no frame.
pub write_through-number :
    (w : ℤ) (owner : ℤ → ℤ) (slot cur : TxqSlot)
    → IsOwned w owner slot
    → IsOwned w owner cur
    → (write_through w slot cur).pack.seq_num ≡ cur.pack.seq_num
unfolding write_through
write_through-number w owner slot cur a b = elim (Bool-cases (eq_ℤ (place w slot) (place w cur))) [
  | inl t ↦ let same = eq_ℤ-true (place w slot) (place w cur) t in rw t (sym a ∙ ap owner same ∙ b)
  | inr f ↦ rw f refl
]

-- The entry `p` gets an owner.
abbrev pub own : ℤ → ℤ → (ℤ → ℤ) → ℤ → ℤ
own p number owner q = if eq_ℤ p q then number else owner q

pub own-new :
    (w : ℤ) (owner : ℤ → ℤ) (s : TxqSlot) → IsOwned w (own (place w s) s.pack.seq_num owner) s
own-new w owner s = rw (eq_ℤ_self (place w s)) refl

pub own-others :
    (w p number : ℤ) (owner : ℤ → ℤ) (xs : List TxqSlot)
    → All (λ s. place w s ≢ p) xs
    → All (IsOwned w owner) xs
    → All (IsOwned w (own p number owner)) xs
own-others w p number owner [] ne h = tt
own-others w p number owner (s ∷ ss) ne h = (
  elim (Bool-cases (eq_ℤ p (place w s))) [
    | inl t ↦ absurd (ne.0 (sym (eq_ℤ-true p (place w s) t)))
    | inr f ↦ rw f h.0
  ],
  own-others w p number owner ss ne.1 h.1,
)

SameNumber : (TxqSlot → TxqSlot) → TxqSlot → Type 0
SameNumber f s = (f s).pack.seq_num ≡ s.pack.seq_num

row-SameOrder :
    (f : TxqSlot → TxqSlot) (a : TxqSlot) (xs : List TxqSlot)
    → SameNumber f a
    → All (SameNumber f) xs
    → All (λ b. compare_seq_num (f a) (f b) ≡ compare_seq_num a b) xs
unfolding SameNumber compare_seq_num
row-SameOrder f a [] h hs = tt
row-SameOrder f a (b ∷ xs) h hs = (rw (h, hs.0) refl, row-SameOrder f a xs h hs.1)

table-SameOrder :
    (f : TxqSlot → TxqSlot) (xs ys : List TxqSlot)
    → All (SameNumber f) xs
    → All (SameNumber f) ys
    → All (λ a. All (λ b. compare_seq_num (f a) (f b) ≡ compare_seq_num a b) ys) xs
table-SameOrder f [] ys h hs = tt
table-SameOrder f (a ∷ xs) ys h hs = (row-SameOrder f a ys h.0 hs, table-SameOrder f xs ys h.1 hs)

map_slots-Covers :
    (f : TxqSlot → TxqSlot) (xs : List TxqSlot) (k : ℕ)
    → All (SameNumber f) xs
    → Covers xs k
    → Covers (map_slots f xs) k
unfolding SameNumber
map_slots-Covers f [] k h c = c
map_slots-Covers f (s ∷ ss) k h (inl e) = inl (h.0 ∙ e)
map_slots-Covers f (s ∷ ss) k h (inr c) = inr (map_slots-Covers f ss k h.1 c)

pub SlotSent-Framed :
    (h : List Packet) (xs : List TxqSlot) → length h < two_63 → All (SlotSent h) xs → All Framed xs
SlotSent-Framed h [] b a = tt
SlotSent-Framed h (s ∷ xs) b a =
    let (k, i) = a.0 in
    ((k, i.number, omega (arith, get_elem?-lt h k i.original i.at)), SlotSent-Framed h xs b a.1)

module _ (x : Externals) (laws : TreeLaws x) where
  open x use {Tree, items, insert, map_items}
  open laws use {Made, made-insert, made-map_items, items-map_items, all-insert}

  -- Where entries are owned, the tree stays one by sequence number, with the same frames in it.
  written-SeqTree :
      (w : ℤ) (owner : ℤ → ℤ) (slot : TxqSlot) (t : Tree)
      → Framed slot
      → IsOwned w owner slot
      → All (IsOwned w owner) (items t)
      → SeqTree x laws t
      → SeqTree x laws (map_items (write_through w slot) t)
        × ((k : ℕ) → Covers (items t) k → Covers (items (map_items (write_through w slot) t)) k)
  unfolding SameNumber
  written-SeqTree w owner slot t h o os v =
      let f = write_through w slot in
      let same : All (SameNumber f) (items t) =
        All-map (IsOwned w owner) (SameNumber f) (items t)
          (λ s. write_through-number w owner slot s o) os in
      (
        record {
          made = made-map_items f (table-SameOrder f (items t) (items t) same same) v.made;
          framed =
              All-map_items x laws Framed Framed f t
                (λ cur b. write_through_either Framed w slot cur h b) v.framed;
        },
        λ k c.
            subst (λ l. Covers l k) (sym (items-map_items f t))
              (map_slots-Covers f (items t) k same c),
      )

  pub insert_written-Covers :
      (w : ℤ) (owner : ℤ → ℤ) (slot : TxqSlot) (t : Tree)
      → Framed slot
      → IsOwned w owner slot
      → All (IsOwned w owner) (items t)
      → SeqTree x laws t
      → SeqTree x laws (insert_written x w slot t)
        × ((k : ℕ)
            → (slot.pack.seq_num ≡ pos k) ⊎ Covers (items t) k
            → Covers (items (insert_written x w slot t)) k)
  insert_written-Covers w owner slot t h o os v =
      let (tree, same) = written-SeqTree w owner slot t h o os v in
      (
        insert-SeqTree x laws slot _ h tree,
        λ k c.
            insert-Covers x laws slot _ k h tree
              (elim c [ inl e ↦ inl e | inr d ↦ inr (same k d) ]),
      )

  -- Every slot in the two trees is of the owner of its entry of `Txq`.
  abbrev pub Owned : (ℤ → ℤ) → SenderState x → Type 0
  Owned owner s =
      All (IsOwned s.sender_window_size owner) (items s.by_seq_num)
      × All (IsOwned s.sender_window_size owner) (items s.by_deadline)
