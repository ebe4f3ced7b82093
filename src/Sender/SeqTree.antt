-- ===== src/Sender/SeqTree.antt =====
-- sender.go: the tree by sequence number with slots put in and taken out, by the frames in it.
use go_sliding_window.Base.{
  ℕ, ◌≡◌, ◌≢◌, sym, ◌∙◌, ap, ◌⊎◌, inl, inr, List, [], ◌∷◌, All, ℕ_discrete,
}
use go_sliding_window.Base.Int.{pos}
use go_sliding_window.Packet.{TxqSlot}
use go_sliding_window.Externals.{Externals, TreeLaws}
use go_sliding_window.Retree.{compare_seq_num}
use go_sliding_window.Sender.Send.{delete_slots}
use go_sliding_window.Sender.Outstanding.{
  Covers, Framed, number_of, Framed-IsKeyed, insert_by-Covers, erase_by-Covers,
}

module _ (x : Externals) (laws : TreeLaws x) where
  open x use {Tree, items, insert, delete_with_key, delete_min}
  open laws use {
    Made, made-insert, made-delete, made-delete_min, items-insert, items-delete, all-insert,
    all-delete,
  }

  -- A tree by sequence number, of data frames.
  pub record SeqTree (t : Tree) : Type 0 where
    pub made : Made compare_seq_num t
    pub framed : All Framed (items t)

  pub insert-SeqTree : (s : TxqSlot) (t : Tree) → Framed s → SeqTree t → SeqTree (insert s t)
  insert-SeqTree s t h v = record {
    made = made-insert s v.made;
    framed = all-insert Framed s t h v.framed;
  }

  pub insert-Covers :
      (s : TxqSlot) (t : Tree) (k : ℕ)
      → Framed s
      → SeqTree t
      → (s.pack.seq_num ≡ pos k) ⊎ Covers (items t) k
      → Covers (items (insert s t)) k
  insert-Covers s t k h v c =
      rw
        (items-insert compare_seq_num number_of s t v.made
          (Framed-IsKeyed (s ∷ items t) (h, v.framed)))
        (insert_by-Covers s (items t) k h v.framed c)

  delete-SeqTree : (s : TxqSlot) (t : Tree) → SeqTree t → SeqTree (delete_with_key s t)
  delete-SeqTree s t v = record {
    made = made-delete s v.made;
    framed = all-delete Framed s t v.framed;
  }

  delete-Covers :
      (s : TxqSlot) (t : Tree) (k : ℕ)
      → Framed s
      → SeqTree t
      → s.pack.seq_num ≢ pos k
      → Covers (items t) k
      → Covers (items (delete_with_key s t)) k
  delete-Covers s t k h v ne c =
      rw
        (items-delete compare_seq_num number_of s t v.made
          (Framed-IsKeyed (s ∷ items t) (h, v.framed)))
        (erase_by-Covers s (items t) k h v.framed ne c)

  pub delete_slots-SeqTree :
      (gone : List TxqSlot) (t : Tree) → SeqTree t → SeqTree (delete_slots x gone t)
  delete_slots-SeqTree [] t v = v
  delete_slots-SeqTree (g ∷ gs) t v =
      delete_slots-SeqTree gs (delete_with_key g t) (delete-SeqTree g t v)

  -- A frame that is no longer in the tree was in one of the slots deleted.
  pub delete_slots-Covers :
      (gone : List TxqSlot) (t : Tree) (k : ℕ)
      → All Framed gone
      → SeqTree t
      → Covers (items t) k
      → Covers gone k ⊎ Covers (items (delete_slots x gone t)) k
  delete_slots-Covers [] t k h v c = inr c
  delete_slots-Covers (g ∷ gs) t k h v c =
      let (j, e, b) = h.0 in
      elim (ℕ_discrete j k) [
        | yes same ↦ inl (inl (e ∙ ap pos same))
        | no ne ↦
            let apart : g.pack.seq_num ≢ pos k =
              λ q. let both : pos j ≡ pos k = sym e ∙ q in ne (cc) in
            elim (delete_slots-Covers gs (delete_with_key g t) k h.1 (delete-SeqTree g t v)
              (delete-Covers g t k h.0 v apart c)) [ inl a ↦ inl (inr a) | inr d ↦ inr d ]
      ]
