-- ===== src/Link/Unacked.antt =====
-- sender.go: in a run for which the entries of `Txq` are enough, a frame is acknowledged, or the sender
-- still has it to send again.
use go_sliding_window.Base.{
  ℕ, suc, ◌+◌, ◌<◌, ◌≡◌, refl, ◌⊎◌, inl, inr, Bool, false, none, some, String, arith, if_elim,
  dec_lt,
}
use go_sliding_window.Base.Int.{ℤ, pos, ◌≤ℤ◌, two_63}
use go_sliding_window.Packet.{Packet, zero_packet, Time, Duration}
use go_sliding_window.Tcp.{TcpState}
use go_sliding_window.Externals.{Externals, TreeLaws}
use go_sliding_window.Retree.{compare_seq_num}
use go_sliding_window.Sender.{SenderState, new_sender_state}
use go_sliding_window.Recv.{ConnectReq}
use go_sliding_window.Sender.Send.{do_orig_data_send, regular_wakeup}
use go_sliding_window.Sender.Receive.{got_pack}
use go_sliding_window.Sender.History.{IsNumbered}
use go_sliding_window.Sender.Control.{
  do_keep_alive, skips_keep_alive, send_keep_alive, do_send_closing, send_ack_pack, do_send_syn,
}
use go_sliding_window.Sender.Outstanding.{Covers}
use go_sliding_window.Sender.Unacked.{EntryFree, do_orig-Covers, got_pack-Covers}
use go_sliding_window.Sender.Owned.{Owned}
use go_sliding_window.Sender.Retried.{regular_wakeup-Covers}
use go_sliding_window.Link.{
  World, Run, start, push, wake, hear_pack, keep_alive, closing, share, acknowledge, connect_out,
  arrive, retry, connect_in, consume, read,
}
use go_sliding_window.Link.Stream.{Run-Good}
use go_sliding_window.Link.Acked.{Acked, FitsTxq}

abbrev no_request : ConnectReq
no_request = record {
  dest_inbox = "";
  err = none;
  remote_nonce = "";
  done = false;
  syn_pack = none;
}

module _ (x : Externals) (laws : TreeLaws x) (w : ℕ) where
  open x use {Tree, items}
  open laws use {Made, made-new, items-new}

  -- The tree is one by sequence number, and has what was not acknowledged; and the slots in the trees
  -- are of the owners of their entries of `Txq`.
  pub record Remembers (acked : ℕ → Type 0) (n : ℕ) (s : SenderState x) : Type 0 where
    pub owner : ℤ → ℤ
    pub owned : Owned x laws owner s
    pub made : Made compare_seq_num s.by_seq_num
    pub there : (k : ℕ) → k < n → acked k ⊎ Covers (items s.by_seq_num) k

  -- The two trees and the size of `Txq` are as they were.
  abbrev SameTrees : SenderState x → SenderState x → Type 0
  SameTrees s t =
      (t.by_seq_num ≡ s.by_seq_num)
      × (t.by_deadline ≡ s.by_deadline)
      × (t.sender_window_size ≡ s.sender_window_size)

  same_trees :
      (acked : ℕ → Type 0) (n : ℕ) (s t : SenderState x)
      → SameTrees s t
      → Remembers acked n s
      → Remembers acked n t
  same_trees acked n s t (q, d, w) r = record {
    owner = r.owner;
    owned = rw (q, d, w) r.owned;
    made = rw q r.made;
    there = rw q r.there;
  }

  keep_alive-SameTrees :
      (s : SenderState x) (state : TcpState) (since : Duration) (now : Time) (ok : Bool)
      → SameTrees s (do_keep_alive x s state since now ok)
  unfolding do_keep_alive send_keep_alive
  keep_alive-SameTrees s state since now ok =
      if_elim (SameTrees s) (skips_keep_alive x s since) s (send_keep_alive x s state now ok)
        (refl, refl, refl) (refl, refl, refl)

  control-SameTrees :
      (s : SenderState x) (cr : ConnectReq) (p : Packet) (now : Time) (ok : Bool)
      → SameTrees s (do_send_closing x s now ok)
        × SameTrees s (send_ack_pack x s p ok).0
        × SameTrees s (do_send_syn x s cr p ok).0
  unfolding do_send_closing send_ack_pack do_send_syn
  control-SameTrees s cr p now ok = ((refl, refl, refl), (refl, refl, refl), (refl, refl, refl))

  first_send :
      (acked : ℕ → Type 0) (n : ℕ) (s : SenderState x) (p : Packet) (now : Time) (ok : Bool)
      → n < two_63
      → EntryFree x s
      → IsNumbered x laws n s
      → Remembers acked n s
      → Remembers acked (suc n) (do_orig_data_send x s p now ok).0
  first_send acked n s p now ok b free v r =
      let ((owner, owned), made, more) =
        do_orig-Covers x laws r.owner n s p now ok b free v r.owned r.made in
      record {
        owner = owner;
        owned = owned;
        made = made;
        there = λ k l. elim (dec_lt k n) [
          | yes lt ↦ elim (r.there k lt) [ inl a ↦ inl a | inr c ↦ inr (more k (inr c)) ]
          | no ge ↦ inr (more k (inl (omega arith)))
        ];
      }

  woken :
      (acked : ℕ → Type 0) (n : ℕ) (s t : SenderState x) (now : Time) (clk : ℕ → Time)
      (ok : ℕ → Bool)
      → regular_wakeup x s now clk ok ≡ some t
      → n < two_63
      → IsNumbered x laws n s
      → Remembers acked n s
      → Remembers acked n t
  woken acked n s t now clk ok e b v r =
      let (owned, made, more) =
        regular_wakeup-Covers x laws r.owner n s t now clk ok e b v r.owned r.made in
      record {
        owner = r.owner;
        owned = owned;
        made = made;
        there = λ k l. elim (r.there k l) [ inl a ↦ inl a | inr c ↦ inr (more k c) ];
      }

  acknowledged :
      (acked : ℕ → Type 0) (n : ℕ) (s t : SenderState x) (a : Packet) (now : Time)
      → got_pack x s a now ≡ some t
      → Remembers acked n s
      → Remembers (λ k. (pos k ≤ℤ a.ack_num) ⊎ acked k) n t
  acknowledged acked n s t a now e r =
      let (owned, made, more) = got_pack-Covers x laws r.owner s t a now e r.owned r.made in
      record {
        owner = r.owner;
        owned = owned;
        made = made;
        there = λ k l. elim (r.there k l) [
          | inl q ↦ inl (inr q)
          | inr c ↦ elim (more k c) [ inl d ↦ inl (inl d) | inr d ↦ inr d ]
        ];
      }

  start-Remembers :
      (acked : ℕ → Type 0) (window : ℕ) (timeout : Duration) (inbox dest : String)
      (interval : Duration) (failed : ℤ) (nonce : String) (now : Time)
      → Remembers acked 0 (new_sender_state x window timeout inbox dest interval failed nonce now)
  unfolding new_sender_state
  start-Remembers acked window timeout inbox dest interval failed nonce now = record {
    owner = λ p. p;
    owned = (rw items-new tt, rw items-new tt);
    made = made-new compare_seq_num;
    there = λ k l. absurd (omega arith);
  }

  Run-Remembers :
      (n : ℕ) (u : World x) (run : Run x w n u)
      → 0 < w
      → n + w + 1 < two_63
      → FitsTxq x w run
      → Remembers (λ k. Acked x w k run) n u.sender
  Run-Remembers n u
        (start window timeout inbox dest interval failed nonce now bytes inbox' dest' nonce' snd) h
        b f =
      start-Remembers _ window timeout inbox dest interval failed nonce now
  Run-Remembers (suc n) v (push {u = u} p now ok run open_) h b f =
      let g = Run-Good x laws w n u h (omega arith) run in
      first_send _ n u.sender p now ok (omega arith) f.0 g.numbered
        (Run-Remembers n u run h (omega arith) f.1)
  Run-Remembers n v (wake {u = u} now clk ok s run e) h b f =
      let g = Run-Good x laws w n u h b run in
      woken _ n u.sender s now clk ok e (omega arith) g.numbered (Run-Remembers n u run h b f)
  Run-Remembers n v (hear_pack {u = u} a now s run e) h b f =
      acknowledged (λ k. Acked x w k run) n u.sender s a now e (Run-Remembers n u run h b f)
  Run-Remembers n v (keep_alive {u = u} state since now ok run) h b f =
      same_trees _ n u.sender _ (keep_alive-SameTrees u.sender state since now ok)
        (Run-Remembers n u run h b f)
  Run-Remembers n v (closing {u = u} now ok run) h b f =
      same_trees _ n u.sender _ (control-SameTrees u.sender no_request zero_packet now ok).0
        (Run-Remembers n u run h b f)
  Run-Remembers n v (share {u = u} flow consumed run) h b f =
      same_trees _ n u.sender _ (refl, refl, refl) (Run-Remembers n u run h b f)
  Run-Remembers n v (acknowledge {u = u} j ack ok run neg idle) h b f =
      same_trees _ n u.sender _ (control-SameTrees u.sender no_request ack (pos 0) ok).1
        (Run-Remembers n u run h b f)
  Run-Remembers n v (connect_out {u = u} j cr syn ok run neg idle) h b f =
      same_trees _ n u.sender _ (control-SameTrees u.sender cr syn (pos 0) ok).2
        (Run-Remembers n u run h b f)
  Run-Remembers n v (arrive {u = u} i p now wall taken r run at e) h b f =
      Run-Remembers n u run h b f
  Run-Remembers n v (retry {u = u} now clk r run e) h b f = Run-Remembers n u run h b f
  Run-Remembers n v (connect_in {u = u} cr run) h b f = Run-Remembers n u run h b f
  Run-Remembers n v (consume {u = u} now run) h b f = Run-Remembers n u run h b f
  Run-Remembers n v (read {u = u} rr now run) h b f = Run-Remembers n u run h b f

  -- In every run with a receiver's window of at least one packet and fewer than 2^63 - w - 1 first
  -- sends, each of which finds its entry of `Txq` in neither tree, each frame that was sent is
  -- acknowledged by a packet that the sender got, or is in a slot of its tree by sequence number:
  -- nothing that is not acknowledged is forgotten.
  pub unacked-Covers :
      (n k : ℕ) (u : World x) (run : Run x w n u)
      → 0 < w
      → n + w + 1 < two_63
      → FitsTxq x w run
      → k < n
      → Acked x w k run ⊎ Covers (items u.sender.by_seq_num) k
  unacked-Covers n k u run h b f l = (Run-Remembers n u run h b f).there k l
