-- ===== src/Sender/Unacked.antt =====
-- sender.go: what is not acknowledged stays in the tree by sequence number, to be sent again.
use go_sliding_window.Base.{
  ℕ, ◌<◌, ◌≡◌, ◌≢◌, refl, sym, ◌∙◌, ap, subst, ◌⊎◌, inl, inr, Bool, true, some, List, [], ◌∷◌, ◌++◌,
  All, arith, Bool-cases, >>=-eq-some,
}
use go_sliding_window.Base.Int.{ℤ, pos, leb_ℤ, ◌≤ℤ◌, two_63, add_64, rem_64}
use go_sliding_window.Packet.{Packet, TxqSlot, Time}
use go_sliding_window.Externals.{Externals, TreeLaws}
use go_sliding_window.Retree.{compare_seq_num, delete_while, delete_through_seq_num}
use go_sliding_window.Retree.Prefix.{delete_while-Split}
use go_sliding_window.Sender.{SenderState}
use go_sliding_window.Sender.Send.{place, stamp, fill_slot, do_orig_data_send}
use go_sliding_window.Sender.Receive.{
  update_rtt, remove_acked, check_ack_window, got_pack, hear, finish_ack,
}
use go_sliding_window.Sender.History.{IsNumbered, SameSends, stamp-number, All-append_right}
use go_sliding_window.Sender.Kept.{
  delete_slots-All, hear-SameSends, update_rtt-SameSends, finish_ack-SameSends,
}
use go_sliding_window.Sender.Outstanding.{Covers}
use go_sliding_window.Sender.Writes.{All-insert_written}
use go_sliding_window.Sender.Owned.{IsOwned, own, own-new, own-others, insert_written-Covers}
use go_sliding_window.Sender.Owned.{SlotSent-Framed, Owned}

Covers-append : (xs ys : List TxqSlot) (k : ℕ) → Covers (xs ++ ys) k → Covers xs k ⊎ Covers ys k
Covers-append [] ys k c = inr c
Covers-append (x ∷ xs) ys k (inl e) = inl (inl e)
Covers-append (x ∷ xs) ys k (inr c) = elim (Covers-append xs ys k c) [
  | inl a ↦ inl (inr a)
  | inr b ↦ inr b
]

-- Slots that passed the test of an acknowledgement cover no later frame.
passed-Covers :
    (n : ℤ) (k : ℕ) (xs : List TxqSlot)
    → All (λ (s : TxqSlot). leb_ℤ s.pack.seq_num n ≡ true) xs
    → Covers xs k
    → pos k ≤ℤ n
passed-Covers n k [] h c = elim c [ ]
passed-Covers n k (s ∷ xs) h (inl e) =
    let t : leb_ℤ (pos k) n ≡ true = rw e at h.0 in ground (arith, t)
passed-Covers n k (s ∷ xs) h (inr c) = passed-Covers n k xs h.1 c

module _ (x : Externals) where
  open x use {items}

  -- The entry of `Txq` that the next first send takes is in neither tree.
  abbrev pub EntryFree : SenderState x → Type 0
  EntryFree s =
      let p = rem_64 (add_64 s.last_frame_sent (pos 1)) s.sender_window_size in
      All (λ q. place s.sender_window_size q ≢ p) (items s.by_seq_num)
      × All (λ q. place s.sender_window_size q ≢ p) (items s.by_deadline)

module _ (x : Externals) (laws : TreeLaws x) where
  open x use {Tree, items, insert, delete_with_key, delete_min}
  open laws use {
    Made, made-insert, made-delete, made-delete_min, items-insert, items-delete, all-insert,
    all-delete,
  }

  -- A first send that finds its entry of `Txq` free adds its frame.
  pub do_orig-Covers :
      (owner : ℤ → ℤ) (n : ℕ) (s : SenderState x) (p : Packet) (now : Time) (ok : Bool)
      → n < two_63
      → EntryFree x s
      → IsNumbered x laws n s
      → Owned x laws owner s
      → Made compare_seq_num s.by_seq_num
      → let t = (do_orig_data_send x s p now ok).0 in
        ((owner' : ℤ → ℤ) × Owned x laws owner' t)
        × Made compare_seq_num t.by_seq_num
        × ((k : ℕ) → (k ≡ n) ⊎ Covers (items s.by_seq_num) k → Covers (items t.by_seq_num) k)
  unfolding do_orig_data_send fill_slot stamp
  do_orig-Covers owner n s p now ok b (free, free_d) v (os, od) m =
      let w = s.sender_window_size in
      let new = fill_slot x s p now in
      let number : new.pack.seq_num ≡ pos n = stamp-number x laws n s p now b v.last in
      let owner' = own (place w new) new.pack.seq_num owner in
      let mine : IsOwned w owner' new = own-new w owner new in
      let os' = own-others w (place w new) new.pack.seq_num owner (items s.by_seq_num) free os in
      let od' = own-others w (place w new) new.pack.seq_num owner (items s.by_deadline) free_d od in
      let framed =
        SlotSent-Framed s.send_history (items s.by_seq_num) (omega (arith, v.history_len))
          v.seq_slots in
      let (tree, more) =
        insert_written-Covers x laws w owner' new s.by_seq_num (n, number, b) mine os'
          (record { made = m; framed = framed }) in
      (
        (
          owner',
          (
            All-insert_written x laws (IsOwned w owner') w new s.by_seq_num mine os',
            All-insert_written x laws (IsOwned w owner') w new s.by_deadline mine od',
          ),
        ),
        tree.made,
        λ k c. more k (elim c [ inl e ↦ inl (number ∙ ap pos (sym e)) | inr d ↦ inr d ]),
      )

  delete_while-Made :
      (test : TxqSlot → Bool) (l : List TxqSlot) (t : Tree)
      → Made compare_seq_num t
      → Made compare_seq_num (delete_while x test l t).0
  unfolding delete_while
  delete_while-Made test [] t m = m
  delete_while-Made test (cur ∷ next) t m = elim (Bool-cases (test cur)) [
    | inl h ↦ rw h (delete_while-Made test next (delete_min t) (made-delete_min m))
    | inr h ↦ rw h m
  ]

  -- An acknowledgement takes away only frames that it covers.
  remove_acked-Covers :
      (s : SenderState x) (n : ℤ) (k : ℕ)
      → Covers (items s.by_seq_num) k
      → (pos k ≤ℤ n) ⊎ Covers (items (remove_acked x s n).by_seq_num) k
  unfolding remove_acked delete_through_seq_num
  remove_acked-Covers s n k c =
      let test = λ (cur : TxqSlot). leb_ℤ cur.pack.seq_num n in
      let split = delete_while-Split x laws test (items s.by_seq_num) s.by_seq_num refl in
      let out = delete_while x test (items s.by_seq_num) s.by_seq_num in
      let both : Covers (out.1 ++ items out.0) k = subst (λ l. Covers l k) split.splits c in
      elim (Covers-append out.1 (items out.0) k both) [
        | inl a ↦ inl (passed-Covers n k out.1 split.passed a)
        | inr d ↦ inr d
      ]

  remove_acked-Made :
      (s : SenderState x) (n : ℤ)
      → Made compare_seq_num s.by_seq_num
      → Made compare_seq_num (remove_acked x s n).by_seq_num
  unfolding remove_acked delete_through_seq_num
  remove_acked-Made s n m = delete_while-Made _ (items s.by_seq_num) s.by_seq_num m

  hear-tree : (s : SenderState x) (a : Packet) → (hear x s a).by_seq_num ≡ s.by_seq_num
  unfolding hear
  hear-tree s a = refl

  -- Deletions leave the owners of what stays.
  remove_acked-Owned :
      (owner : ℤ → ℤ) (s : SenderState x) (n : ℤ)
      → Owned x laws owner s
      → Owned x laws owner (remove_acked x s n)
  unfolding remove_acked delete_through_seq_num
  remove_acked-Owned owner s n (os, od) =
      let P = IsOwned s.sender_window_size owner in
      let test = λ (cur : TxqSlot). leb_ℤ cur.pack.seq_num n in
      let split = delete_while-Split x laws test (items s.by_seq_num) s.by_seq_num refl in
      let out = delete_while x test (items s.by_seq_num) s.by_seq_num in
      (
        All-append_right P out.1 (items out.0) (subst (All P) split.splits os),
        delete_slots-All x laws P out.1 s.by_deadline od,
      )

  SameSends-Owned :
      (owner : ℤ → ℤ) (s t : SenderState x)
      → SameSends x laws s t
      → t.sender_window_size ≡ s.sender_window_size
      → Owned x laws owner s
      → Owned x laws owner t
  SameSends-Owned owner s t (l, h, q, d, net) same o = rw (same, q, d) o

  window-hear :
      (s : SenderState x) (a : Packet) → (hear x s a).sender_window_size ≡ s.sender_window_size
  unfolding hear
  window-hear s a = refl

  window-update_rtt :
      (s t : SenderState x) (a : Packet) (now : Time)
      → update_rtt x s a now ≡ some t
      → t.sender_window_size ≡ s.sender_window_size
  unfolding update_rtt
  window-update_rtt s t a now e = ground arith

  window-finish_ack :
      (s t : SenderState x) (a : Packet)
      → finish_ack x s a ≡ some t
      → t.sender_window_size ≡ s.sender_window_size
  unfolding finish_ack check_ack_window
  window-finish_ack s t a e = ground arith

  pub got_pack-Covers :
      (owner : ℤ → ℤ) (s t : SenderState x) (a : Packet) (now : Time)
      → got_pack x s a now ≡ some t
      → Owned x laws owner s
      → Made compare_seq_num s.by_seq_num
      → Owned x laws owner t
        × Made compare_seq_num t.by_seq_num
        × ((k : ℕ)
            → Covers (items s.by_seq_num) k
            → (pos k ≤ℤ a.ack_num) ⊎ Covers (items t.by_seq_num) k)
  unfolding got_pack
  got_pack-Covers owner s t a now e o m =
      let (s2, e2, rest) =
        >>=-eq-some (update_rtt x (hear x s a) a now)
          (λ s2. finish_ack x (remove_acked x s2 a.ack_num) a) e in
      let rtt = update_rtt-SameSends x laws (hear x s a) s2 a now e2 in
      let (l1, h1, same, d1, n1) = rtt in
      let done = finish_ack-SameSends x laws (remove_acked x s2 a.ack_num) t a rest in
      let (l2, h2, after, d2, n2) = done in
      let start : s2.by_seq_num ≡ s.by_seq_num = same ∙ hear-tree s a in
      let heard =
        SameSends-Owned owner s (hear x s a) (hear-SameSends x laws s a) (window-hear s a) o in
      let there =
        SameSends-Owned owner (hear x s a) s2 rtt (window-update_rtt (hear x s a) s2 a now e2)
          heard in
      (
        SameSends-Owned owner (remove_acked x s2 a.ack_num) t done
            (window-finish_ack (remove_acked x s2 a.ack_num) t a rest)
            (remove_acked-Owned owner s2 a.ack_num there),
        rw after (remove_acked-Made s2 a.ack_num (rw start m)),
        λ k c. rw after (remove_acked-Covers s2 a.ack_num k (rw start c)),
      )
