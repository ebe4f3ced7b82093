-- ===== src/Sender/Retried.antt =====
-- sender.go: a wake-up of the sender puts what it sends again back into the tree by sequence number.
use go_sliding_window.Base.{
  ℕ, suc, ◌<◌, ◌≡◌, refl, sym, ◌∙◌, subst, ◌⊎◌, inl, inr, Bool, some, List, [], ◌∷◌, All, length,
  arith, Bool-cases, some_eq,
}
use go_sliding_window.Base.Int.{ℤ, pos, leb_ℤ, two_63}
use go_sliding_window.Packet.{TxqSlot, Time}
use go_sliding_window.Externals.{Externals, TreeLaws}
use go_sliding_window.Retree.{compare_seq_num, delete_while, delete_through_deadline}
use go_sliding_window.Retree.Prefix.{delete_while-Split}
use go_sliding_window.Sender.{SenderState}
use go_sliding_window.Sender.Send.{
  write_through, refresh_slot, resend, resend_all, delete_slots, regular_wakeup, is_dead,
}
use go_sliding_window.Sender.History.{IsNumbered, All-map, All-append_left, All-append_right}
use go_sliding_window.Sender.Kept.{delete_slots-All}
use go_sliding_window.Sender.Outstanding.{Covers, Framed}
use go_sliding_window.Sender.SeqTree.{SeqTree, delete_slots-SeqTree, delete_slots-Covers}
use go_sliding_window.Sender.Writes.{write_through_either, All-insert_written}
use go_sliding_window.Sender.Owned.{IsOwned, write_through-number, insert_written-Covers}
use go_sliding_window.Sender.Owned.{SlotSent-Framed, Owned}

module _ (x : Externals) (laws : TreeLaws x) where
  open x use {Tree, items, insert, delete_with_key, delete_min}
  open laws use {
    Made, made-insert, made-delete, made-delete_min, items-insert, items-delete, all-insert,
    all-delete,
  }

  window-resend :
      (s : SenderState x) (slot : TxqSlot) (now : Time) (ok : Bool)
      → (resend x s slot now ok).sender_window_size ≡ s.sender_window_size
  unfolding resend
  window-resend s slot now ok = refl

  refreshed-Framed :
      (s : SenderState x) (slot : TxqSlot) (now : Time)
      → Framed slot
      → Framed (refresh_slot x s slot now)
  unfolding refresh_slot
  refreshed-Framed s slot now h = h

  refreshed-IsOwned :
      (owner : ℤ → ℤ) (s : SenderState x) (slot : TxqSlot) (now : Time)
      → IsOwned s.sender_window_size owner slot
      → IsOwned s.sender_window_size owner (refresh_slot x s slot now)
  unfolding refresh_slot
  refreshed-IsOwned owner s slot now h = h

  -- What a pointer of the retry list points to has the number that it had.
  abbrev Due : ℤ → (ℤ → ℤ) → (TxqSlot → TxqSlot) → TxqSlot → Type 0
  Due w owner now_at q =
      Framed (now_at q) × IsOwned w owner (now_at q) × ((now_at q).pack.seq_num ≡ q.pack.seq_num)

  written-Due :
      (w : ℤ) (owner : ℤ → ℤ) (now_at : TxqSlot → TxqSlot) (fresh q : TxqSlot)
      → Framed fresh
      → IsOwned w owner fresh
      → Due w owner now_at q
      → Due w owner (λ c. write_through w fresh (now_at c)) q
  written-Due w owner now_at fresh q h o (f, p, e) = (
    write_through_either Framed w fresh (now_at q) h f,
    write_through_either (IsOwned w owner) w fresh (now_at q) o p,
    write_through-number w owner fresh (now_at q) o p ∙ e,
  )

  both-Due :
      (w : ℤ) (owner : ℤ → ℤ) (xs : List TxqSlot)
      → All Framed xs
      → All (IsOwned w owner) xs
      → All (Due w owner (λ cur. cur)) xs
  both-Due w owner [] f o = tt
  both-Due w owner (q ∷ qs) f o = ((f.0, o.0, refl), both-Due w owner qs f.1 o.1)

  -- A round of the retry loop.
  resend-Covers :
      (owner : ℤ → ℤ) (s : SenderState x) (slot : TxqSlot) (now : Time) (ok : Bool)
      → Framed slot
      → IsOwned s.sender_window_size owner slot
      → Owned x laws owner s
      → SeqTree x laws s.by_seq_num
      → Owned x laws owner (resend x s slot now ok)
        × SeqTree x laws (resend x s slot now ok).by_seq_num
        × ((k : ℕ)
            → (slot.pack.seq_num ≡ pos k) ⊎ Covers (items s.by_seq_num) k
            → Covers (items (resend x s slot now ok).by_seq_num) k)
  unfolding resend refresh_slot
  resend-Covers owner s slot now ok h o (os, od) v =
      let w = s.sender_window_size in
      let fresh = refresh_slot x s slot now in
      let (tree, more) = insert_written-Covers x laws w owner fresh s.by_seq_num h o os v in
      (
        (
          All-insert_written x laws (IsOwned w owner) w fresh s.by_seq_num o os,
          All-insert_written x laws (IsOwned w owner) w fresh s.by_deadline o od,
        ),
        tree,
        more,
      )

  resend_all-Covers :
      (owner : ℤ → ℤ) (s : SenderState x) (now_at : TxqSlot → TxqSlot) (slots : List TxqSlot)
      (clk : ℕ → Time) (ok : ℕ → Bool) (i : ℕ)
      → All (Due s.sender_window_size owner now_at) slots
      → Owned x laws owner s
      → SeqTree x laws s.by_seq_num
      → Owned x laws owner (resend_all x s now_at slots clk ok i)
        × Made compare_seq_num (resend_all x s now_at slots clk ok i).by_seq_num
        × ((k : ℕ)
            → Covers slots k ⊎ Covers (items s.by_seq_num) k
            → Covers (items (resend_all x s now_at slots clk ok i).by_seq_num) k)
  unfolding resend_all
  resend_all-Covers owner s now_at [] clk ok i h o v =
      (o, v.made, λ k c. elim c [ inl d ↦ elim d [ ] | inr d ↦ d ])
  resend_all-Covers owner s now_at (slot ∷ slots) clk ok i h o v =
      let w = s.sender_window_size in
      let fresh = refresh_slot x s (now_at slot) (clk i) in
      let (framed, owned, number) = h.0 in
      let (o1, v1, more) = resend-Covers owner s (now_at slot) (clk i) (ok i) framed owned o v in
      let left =
        All-map (Due w owner now_at) (Due w owner (λ c. write_through w fresh (now_at c))) slots
          (λ q d.
            written-Due w owner now_at fresh q (refreshed-Framed s (now_at slot) (clk i) framed)
              (refreshed-IsOwned owner s (now_at slot) (clk i) owned) d)
          h.1 in
      let (o2, m2, rest) =
        resend_all-Covers owner (resend x s (now_at slot) (clk i) (ok i)) _ slots clk ok (suc i)
          (subst (λ u. All (Due u owner (λ c. write_through w fresh (now_at c))) slots)
            (sym (window-resend s (now_at slot) (clk i) (ok i))) left)
          o1 v1 in
      (
        o2,
        m2,
        λ k c. rest k (elim c [
          | inl d ↦ elim d [ inl e ↦ inr (more k (inl (number ∙ e))) | inr later ↦ inl later ]
          | inr d ↦ inr (more k (inr d))
        ]),
      )

  -- A wake-up takes out the slots that are due, and puts the same frames back.
  wakeup-Covers :
      (owner : ℤ → ℤ) (s : SenderState x) (now : Time) (clk : ℕ → Time) (ok : ℕ → Bool)
      → SeqTree x laws s.by_seq_num
      → Owned x laws owner s
      → All Framed (items s.by_deadline)
      → let (t, retry) = delete_through_deadline x now s.by_deadline in
        let s1 = record s { by_deadline = t; by_seq_num = delete_slots x retry s.by_seq_num } in
        let u = resend_all x s1 (λ cur. cur) retry clk ok 0 in
        Owned x laws owner u
        × Made compare_seq_num u.by_seq_num
        × ((k : ℕ) → Covers (items s.by_seq_num) k → Covers (items u.by_seq_num) k)
  unfolding delete_through_deadline
  wakeup-Covers owner s now clk ok v (os, od) h =
      let P = IsOwned s.sender_window_size owner in
      let test = λ (cur : TxqSlot). leb_ℤ cur.retry_deadline now in
      let split = delete_while-Split x laws test (items s.by_deadline) s.by_deadline refl in
      let out = delete_while x test (items s.by_deadline) s.by_deadline in
      let due = All-append_left Framed out.1 (items out.0) (subst (All Framed) split.splits h) in
      let both = subst (All P) split.splits od in
      let owned = All-append_left P out.1 (items out.0) both in
      let s1 = record s { by_deadline = out.0; by_seq_num = delete_slots x out.1 s.by_seq_num } in
      let (o, m, more) =
        resend_all-Covers owner s1 (λ cur. cur) out.1 clk ok 0
          (both-Due s.sender_window_size owner out.1 due owned)
          (
            delete_slots-All x laws P out.1 s.by_seq_num os,
            All-append_right P out.1 (items out.0) both,
          )
          (delete_slots-SeqTree x laws out.1 s.by_seq_num v) in
      (o, m, λ k c. more k (delete_slots-Covers x laws out.1 s.by_seq_num k due v c))

  pub regular_wakeup-Covers :
      (owner : ℤ → ℤ) (n : ℕ) (s t : SenderState x) (now : Time) (clk : ℕ → Time) (ok : ℕ → Bool)
      → regular_wakeup x s now clk ok ≡ some t
      → n < two_63
      → IsNumbered x laws n s
      → Owned x laws owner s
      → Made compare_seq_num s.by_seq_num
      → Owned x laws owner t
        × Made compare_seq_num t.by_seq_num
        × ((k : ℕ) → Covers (items s.by_seq_num) k → Covers (items t.by_seq_num) k)
  unfolding regular_wakeup
  regular_wakeup-Covers owner n s t now clk ok e b v o m =
      let small : length s.send_history < two_63 = omega (arith, v.history_len) in
      let w =
        wakeup-Covers owner s now clk ok
          (record {
            made = m;
            framed = SlotSent-Framed s.send_history (items s.by_seq_num) small v.seq_slots;
          })
          o (SlotSent-Framed s.send_history (items s.by_deadline) small v.deadline_slots) in
      elim (Bool-cases (is_dead x s now)) [
        | inl dead ↦ absurd (ground (arith, dead))
        | inr alive ↦
            let same = some_eq (rw alive at e) in
            subst
              (λ (u : SenderState x).
                Owned x laws owner u
                × Made compare_seq_num u.by_seq_num
                × ((k : ℕ) → Covers (items s.by_seq_num) k → Covers (items u.by_seq_num) k))
              same w
      ]
