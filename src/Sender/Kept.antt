-- ===== src/Sender/Kept.antt =====
-- sender.go: every case of the send loop keeps the numbering of Sender/History.
use go_sliding_window.Base.{
  ℕ, suc, ◌≡◌, refl, ◌∙◌, subst, inl, inr, Bool, some, List, [], ◌∷◌, All, arith, Bool-cases,
  some_eq, >>=-eq-some,
}
use go_sliding_window.Base.Int.{ℤ, leb_ℤ}
use go_sliding_window.Packet.{Packet, TxqSlot, Time}
use go_sliding_window.Externals.{Externals, TreeLaws}
use go_sliding_window.Retree.{delete_through_deadline, delete_through_seq_num, delete_while}
use go_sliding_window.Retree.Prefix.{delete_while-Split}
use go_sliding_window.Sender.{SenderState}
use go_sliding_window.Sender.Send.{
  write_through, refresh_slot, resend, resend_all, regular_wakeup, delete_slots, is_dead,
}
use go_sliding_window.Sender.Receive.{
  update_rtt, remove_acked, check_ack_window, got_pack, hear, finish_ack, same_len,
}
use go_sliding_window.Sender.History.{
  SlotSent, NetOk, All-map, put_net-All, All-append_left, All-append_right, IsNumbered, SameSends,
  SameSends-IsNumbered,
}
use go_sliding_window.Sender.Writes.{write_through_either, All-insert_written}

module _ (x : Externals) (laws : TreeLaws x) where
  open x use {Tree, items, insert, delete_with_key, delete_min}
  open laws use {all-insert, all-delete, items-new}

  pub delete_slots-All :
      (P : TxqSlot → Type 0) (gone : List TxqSlot) (t : Tree)
      → All P (items t)
      → All P (items (delete_slots x gone t))
  delete_slots-All P [] t h = h
  delete_slots-All P (g ∷ gs) t h = delete_slots-All P gs (delete_with_key g t) (all-delete P g t h)

  -- A retry sends the same payload under the same number.
  refresh-SlotSent :
      (h : List Packet) (s : SenderState x) (slot : TxqSlot) (now : Time)
      → SlotSent h slot
      → SlotSent h (refresh_slot x s slot now)
  unfolding refresh_slot
  refresh-SlotSent h s slot now (k, i) = (
    k,
    record {
      number = i.number;
      original = i.original;
      at = i.at;
      payload = i.payload;
      offset = i.offset;
    },
  )

  resend-IsNumbered :
      (n : ℕ) (s : SenderState x) (slot : TxqSlot) (now : Time) (ok : Bool)
      → SlotSent s.send_history slot
      → IsNumbered x laws n s
      → IsNumbered x laws n (resend x s slot now ok)
  unfolding resend
  resend-IsNumbered n s slot now ok h v =
      let f = refresh_slot x s slot now in
      let i = refresh-SlotSent s.send_history s slot now h in
      record {
        last = v.last;
        history = v.history;
        history_len = v.history_len;
        seq_slots =
            All-insert_written x laws (SlotSent s.send_history) s.sender_window_size f s.by_seq_num
              i v.seq_slots;
        deadline_slots =
            All-insert_written x laws (SlotSent s.send_history) s.sender_window_size f s.by_deadline
              i v.deadline_slots;
        network = put_net-All (NetOk s.send_history) ok f.pack s.net (inr i) v.network;
      }

  history-resend :
      (s : SenderState x) (slot : TxqSlot) (now : Time) (ok : Bool)
      → (resend x s slot now ok).send_history ≡ s.send_history
  unfolding resend
  history-resend s slot now ok = refl

  resend_all-IsNumbered :
      (n : ℕ) (s : SenderState x) (now_at : TxqSlot → TxqSlot) (slots : List TxqSlot)
      (clk : ℕ → Time) (ok : ℕ → Bool) (i : ℕ)
      → All (λ q. SlotSent s.send_history (now_at q)) slots
      → IsNumbered x laws n s
      → IsNumbered x laws n (resend_all x s now_at slots clk ok i)
        × ((resend_all x s now_at slots clk ok i).send_history ≡ s.send_history)
  unfolding resend_all
  resend_all-IsNumbered n s now_at [] clk ok i h v = (v, refl)
  resend_all-IsNumbered n s now_at (slot ∷ slots) clk ok i h v =
      let same = history-resend s (now_at slot) (clk i) (ok i) in
      let P = SlotSent s.send_history in
      let fresh = refresh_slot x s (now_at slot) (clk i) in
      let sent = refresh-SlotSent s.send_history s (now_at slot) (clk i) h.0 in
      let rest =
        All-map (λ q. P (now_at q)) (λ q. P (write_through s.sender_window_size fresh (now_at q)))
          slots (λ q. write_through_either P s.sender_window_size fresh (now_at q) sent) h.1 in
      let (u, e) =
        resend_all-IsNumbered n (resend x s (now_at slot) (clk i) (ok i)) _ slots clk ok (suc i)
          (rw same rest) (resend-IsNumbered n s (now_at slot) (clk i) (ok i) h.0 v) in
      (u, e ∙ same)

  -- The rest of the wake-up: the slots that are due leave both trees and are sent again.
  wakeup-IsNumbered :
      (n : ℕ) (s : SenderState x) (now : Time) (clk : ℕ → Time) (ok : ℕ → Bool)
      → IsNumbered x laws n s
      → let (t, retry) = delete_through_deadline x now s.by_deadline in
        let s1 = record s { by_deadline = t; by_seq_num = delete_slots x retry s.by_seq_num } in
        IsNumbered x laws n (resend_all x s1 (λ cur. cur) retry clk ok 0)
        × ((resend_all x s1 (λ cur. cur) retry clk ok 0).send_history ≡ s.send_history)
  unfolding delete_through_deadline
  wakeup-IsNumbered n s now clk ok v =
      let test = λ (cur : TxqSlot). leb_ℤ cur.retry_deadline now in
      let split = delete_while-Split x laws test (items s.by_deadline) s.by_deadline refl in
      let out = delete_while x test (items s.by_deadline) s.by_deadline in
      let both = subst (All (SlotSent s.send_history)) split.splits v.deadline_slots in
      let s1 = record s { by_deadline = out.0; by_seq_num = delete_slots x out.1 s.by_seq_num } in
      resend_all-IsNumbered n s1 (λ cur. cur) out.1 clk ok 0
        (All-append_left (SlotSent s.send_history) out.1 (items out.0) both)
        (record {
          last = v.last;
          history = v.history;
          history_len = v.history_len;
          seq_slots = delete_slots-All (SlotSent s.send_history) out.1 s.by_seq_num v.seq_slots;
          deadline_slots = All-append_right (SlotSent s.send_history) out.1 (items out.0) both;
          network = v.network;
        })

  -- A wake-up that does not end the sender keeps the numbering and leaves the history as it was: what
  -- it sends again, and what it keeps to be sent again, carries the payload of its number.
  pub regular_wakeup-IsNumbered :
      (n : ℕ) (s t : SenderState x) (now : Time) (clk : ℕ → Time) (ok : ℕ → Bool)
      → regular_wakeup x s now clk ok ≡ some t
      → IsNumbered x laws n s
      → IsNumbered x laws n t × (t.send_history ≡ s.send_history)
  unfolding regular_wakeup
  regular_wakeup-IsNumbered n s t now clk ok e v =
      let w = wakeup-IsNumbered n s now clk ok v in
      elim (Bool-cases (is_dead x s now)) [
        | inl dead ↦ absurd (ground (arith, dead))
        | inr alive ↦
            let same = some_eq (rw alive at e) in
            subst (λ u. IsNumbered x laws n u × (u.send_history ≡ s.send_history)) same w
      ]

  remove_acked-IsNumbered :
      (n : ℕ) (s : SenderState x) (a : ℤ)
      → IsNumbered x laws n s
      → IsNumbered x laws n (remove_acked x s a)
  unfolding remove_acked delete_through_seq_num
  remove_acked-IsNumbered n s a v =
      let test = λ (cur : TxqSlot). leb_ℤ cur.pack.seq_num a in
      let split = delete_while-Split x laws test (items s.by_seq_num) s.by_seq_num refl in
      let out = delete_while x test (items s.by_seq_num) s.by_seq_num in
      let both = subst (All (SlotSent s.send_history)) split.splits v.seq_slots in
      record {
        last = v.last;
        history = v.history;
        history_len = v.history_len;
        seq_slots = All-append_right (SlotSent s.send_history) out.1 (items out.0) both;
        deadline_slots =
            delete_slots-All (SlotSent s.send_history) out.1 s.by_deadline v.deadline_slots;
        network = v.network;
      }

  history-remove_acked :
      (s : SenderState x) (a : ℤ) → (remove_acked x s a).send_history ≡ s.send_history
  unfolding remove_acked
  history-remove_acked s a = refl

  pub update_rtt-SameSends :
      (s t : SenderState x) (a : Packet) (now : Time)
      → update_rtt x s a now ≡ some t
      → SameSends x laws s t
  unfolding update_rtt
  update_rtt-SameSends s t a now e = ground arith

  check_ack-SameSends :
      (s : SenderState x) (a : Packet) → SameSends x laws s (check_ack_window x s a)
  unfolding check_ack_window
  check_ack-SameSends s a = ground arith

  pub hear-SameSends : (s : SenderState x) (a : Packet) → SameSends x laws s (hear x s a)
  unfolding hear
  hear-SameSends s a = (refl, refl, refl, refl, refl)

  pub finish_ack-SameSends :
      (s t : SenderState x) (a : Packet) → finish_ack x s a ≡ some t → SameSends x laws s t
  unfolding finish_ack
  finish_ack-SameSends s t a e = elim (Bool-cases (same_len x s)) [
    | inl same ↦
        let eq = some_eq (rw same at e) in subst (SameSends x laws s) eq (check_ack-SameSends s a)
    | inr ne ↦ absurd (ground (arith, ne))
  ]

  -- A packet from the other end that does not make the sender panic, whatever it acknowledges, keeps the
  -- numbering and leaves the history as it was.
  pub got_pack-IsNumbered :
      (n : ℕ) (s t : SenderState x) (a : Packet) (now : Time)
      → got_pack x s a now ≡ some t
      → IsNumbered x laws n s
      → IsNumbered x laws n t × (t.send_history ≡ s.send_history)
  unfolding got_pack
  got_pack-IsNumbered n s t a now e v =
      let (s2, e2, rest) =
        >>=-eq-some (update_rtt x (hear x s a) a now)
          (λ s2. finish_ack x (remove_acked x s2 a.ack_num) a) e in
      let heard = hear-SameSends s a in
      let rtt = update_rtt-SameSends (hear x s a) s2 a now e2 in
      let done = finish_ack-SameSends (remove_acked x s2 a.ack_num) t a rest in
      (
        SameSends-IsNumbered x laws n (remove_acked x s2 a.ack_num) t done (
            remove_acked-IsNumbered n s2 a.ack_num (
              SameSends-IsNumbered x laws n (hear x s a) s2 rtt
                (SameSends-IsNumbered x laws n s (hear x s a) heard v))),
        done.1 ∙ history-remove_acked s2 a.ack_num ∙ rtt.1 ∙ heard.1,
      )
