-- ===== src/Sender/Writes.antt =====
-- sender.go: the slots of `Txq` are shared by the two trees, and what a write to one of them changes
-- there.
use go_sliding_window.Base.{sym, if_elim, List, [], ◌∷◌, All, subst}
use go_sliding_window.Base.Int.{ℤ, eq_ℤ}
use go_sliding_window.Packet.{TxqSlot}
use go_sliding_window.Externals.{Externals, TreeLaws, map_slots}
use go_sliding_window.Sender.Send.{place, write_through, insert_written}

All-map_slots :
    (P Q : TxqSlot → Type 0) (f : TxqSlot → TxqSlot) (xs : List TxqSlot)
    → ((s : TxqSlot) → P s → Q (f s))
    → All P xs
    → All Q (map_slots f xs)
All-map_slots P Q f [] h a = tt
All-map_slots P Q f (s ∷ ss) h a = (h s a.0, All-map_slots P Q f ss h a.1)

-- Behind a pointer is what was there or what was written.
pub write_through_either :
    (P : TxqSlot → Type 0) (w : ℤ) (slot cur : TxqSlot)
    → P slot
    → P cur
    → P (write_through w slot cur)
unfolding write_through
write_through_either P w slot cur a b = if_elim P (eq_ℤ (place w slot) (place w cur)) slot cur a b

module _ (x : Externals) (laws : TreeLaws x) where
  open x use {Tree, items, insert, map_items}
  open laws use {Made, made-insert, made-map_items, items-map_items, all-insert}

  pub All-map_items :
      (P Q : TxqSlot → Type 0) (f : TxqSlot → TxqSlot) (t : Tree)
      → ((s : TxqSlot) → P s → Q (f s))
      → All P (items t)
      → All Q (items (map_items f t))
  All-map_items P Q f t h a =
      subst (All Q) (sym (items-map_items f t)) (All-map_slots P Q f (items t) h a)

  pub All-insert_written :
      (P : TxqSlot → Type 0) (w : ℤ) (slot : TxqSlot) (t : Tree)
      → P slot
      → All P (items t)
      → All P (items (insert_written x w slot t))
  All-insert_written P w slot t h a = all-insert P slot _ h (
      All-map_items P P (write_through w slot) t (λ cur b. write_through_either P w slot cur h b) a)
