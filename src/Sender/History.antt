-- ===== src/Sender/History.antt =====
-- sender.go: data packets are numbered 0, 1, 2, …, and whatever the sender puts on the network, first
-- sends and retries alike, carries the payload of its number.
use go_sliding_window.Base.{
  ℕ, zero, suc, ◌<◌, ◌≡◌, refl, ◌∙◌, ap, ◌⊎◌, inl, inr, Bool, true, false, some, List, [], ◌∷◌,
  ◌++◌, All, All-append, AllFrom, AllFrom-append, length, length-append, get_elem?, arith,
}
use go_sliding_window.Base.Int.{ℤ, pos, negsuc, add_64, two_63, add_64_pos}
use go_sliding_window.Packet.{Packet, TxqSlot, Time}
use go_sliding_window.Externals.{Externals, TreeLaws}
use go_sliding_window.Tcp.{is_data}
use go_sliding_window.Sender.{SenderState}
use go_sliding_window.Sender.Send.{stamp, fill_slot, do_orig_data_send, put_net}
use go_sliding_window.Sender.Writes.{All-insert_written}

-- `LastFrameSent` after `n` first sends.
abbrev pub last_of : ℕ → ℤ
last_of zero = negsuc 0
last_of (suc n) = pos n

pub add_64-last : (n : ℕ) → n < two_63 → add_64 (last_of n) (pos 1) ≡ pos n
unfolding add_64
add_64-last zero h = refl
add_64-last (suc n) h = add_64_pos n 1 (omega arith) ∙ ap pos (omega arith)

-- The packet carries the payload of the `k`-th packet of the history.
pub record IsSent (h : List Packet) (k : ℕ) (p : Packet) : Type 0 where
  pub number : p.seq_num ≡ pos k
  pub original : Packet
  pub at : get_elem? h k ≡ some original
  pub payload : original.payload ≡ p.payload
  pub offset : original.data_offset ≡ p.data_offset

pub get_elem?-append :
    {A : Type 0} (xs : List A) (k : ℕ) (x y : A)
    → get_elem? xs k ≡ some x
    → get_elem? (xs ++ y ∷ []) k ≡ some x
get_elem?-append [] k x y e = absurd (cc)
get_elem?-append (z ∷ xs) zero x y e = e
get_elem?-append (z ∷ xs) (suc k) x y e = get_elem?-append xs k x y e

pub get_elem?-last :
    {A : Type 0} (xs : List A) (n : ℕ) (y : A) → length xs ≡ n → get_elem? (xs ++ y ∷ []) n ≡ some y
get_elem?-last [] zero y e = refl
get_elem?-last [] (suc n) y e = absurd (omega arith)
get_elem?-last (z ∷ xs) zero y e = absurd (omega arith)
get_elem?-last (z ∷ xs) (suc n) y e = get_elem?-last xs n y (omega arith)

pub IsSent-append :
    (h : List Packet) (k : ℕ) (p q : Packet) → IsSent h k p → IsSent (h ++ q ∷ []) k p
IsSent-append h k p q s = record {
  number = s.number;
  original = s.original;
  at = get_elem?-append h k s.original q s.at;
  payload = s.payload;
  offset = s.offset;
}

-- A slot holds a packet of the history; what goes on the network is that or a control packet,
-- whose number is negative.
abbrev pub SlotSent : List Packet → TxqSlot → Type 0
SlotSent h s = (k : ℕ) × IsSent h k s.pack

abbrev pub NetOk : List Packet → Packet → Type 0
NetOk h p =
    ((j : ℕ) × (p.seq_num ≡ negsuc j) × (is_data p.tcp_event ≡ false)) ⊎ ((k : ℕ) × IsSent h k p)

pub All-map {ℓ κ} :
    {A : Type ℓ} (P Q : A → Type κ) (xs : List A) → ((x : A) → P x → Q x) → All P xs → All Q xs
All-map P Q [] f h = tt
All-map P Q (x ∷ xs) f h = (f x h.0, All-map P Q xs f h.1)

NetOk-append : (h : List Packet) (q p : Packet) → NetOk h p → NetOk (h ++ q ∷ []) p
NetOk-append h q p (inl c) = inl c
NetOk-append h q p (inr (k, s)) = inr (k, IsSent-append h k p q s)

pub put_net-All :
    (P : Packet → Type 0) (ok : Bool) (p : Packet) (net : List Packet)
    → P p
    → All P net
    → All P (put_net ok p net)
put_net-All P true p net h hs = All-append P net (p ∷ []) hs (h, tt)
put_net-All P false p net h hs = hs

pub All-append_left {ℓ κ} :
    {A : Type ℓ} (P : A → Type κ) (xs ys : List A) → All P (xs ++ ys) → All P xs
All-append_left P [] ys h = tt
All-append_left P (x ∷ xs) ys h = (h.0, All-append_left P xs ys h.1)

pub All-append_right {ℓ κ} :
    {A : Type ℓ} (P : A → Type κ) (xs ys : List A) → All P (xs ++ ys) → All P ys
All-append_right P [] ys h = h
All-append_right P (x ∷ xs) ys h = All-append_right P xs ys h.1

module _ (x : Externals) (laws : TreeLaws x) where
  open x use {Tree, items, insert, delete_with_key, delete_min}
  open laws use {all-insert, all-delete, items-new}

  -- `n` packets were sent: they are numbered from 0, and what is kept and what is on the network is
  -- of them.
  pub record IsNumbered (n : ℕ) (s : SenderState x) : Type 0 where
    pub last : s.last_frame_sent ≡ last_of n
    pub history : AllFrom (λ k p. p.seq_num ≡ pos k) 0 s.send_history
    pub history_len : length s.send_history ≡ n
    pub seq_slots : All (SlotSent s.send_history) (items s.by_seq_num)
    pub deadline_slots : All (SlotSent s.send_history) (items s.by_deadline)
    pub network : All (NetOk s.send_history) s.net

  pub stamp-number :
      (n : ℕ) (s : SenderState x) (p : Packet) (now : Time)
      → n < two_63
      → s.last_frame_sent ≡ last_of n
      → (stamp x s p now).seq_num ≡ pos n
  unfolding stamp
  stamp-number n s p now b e = ap (λ l. add_64 l (pos 1)) e ∙ add_64-last n b

  -- If `n` packets were sent, fewer than 2^63, a first send takes the number `n`, and afterwards too
  -- the history is numbered 0, 1, 2, …, and each slot of the two trees and each packet on the network
  -- is a packet of the history, or else a control packet with a negative number.
  pub do_orig-IsNumbered :
      (n : ℕ) (s : SenderState x) (p : Packet) (now : Time) (ok : Bool)
      → n < two_63
      → IsNumbered n s
      → IsNumbered (suc n) (do_orig_data_send x s p now ok).0
  unfolding do_orig_data_send fill_slot
  do_orig-IsNumbered n s p now ok b v =
      let q = stamp x s p now in
      let number : q.seq_num ≡ pos n = stamp-number n s p now b v.last in
      let mine : IsSent (s.send_history ++ q ∷ []) n q = record {
        number = number;
        original = q;
        at = get_elem?-last s.send_history n q v.history_len;
        payload = refl;
        offset = refl;
      } in
      let grow : (t : TxqSlot) → SlotSent s.send_history t → SlotSent (s.send_history ++ q ∷ []) t =
        λ t h. (h.0, IsSent-append s.send_history h.0 t.pack q h.1) in
      record {
        last = ap (λ l. add_64 l (pos 1)) v.last ∙ add_64-last n b;
        history =
            AllFrom-append (λ k p. p.seq_num ≡ pos k) 0 n s.send_history q v.history
              (omega (arith, v.history_len)) number;
        history_len = omega (arith, length-append s.send_history (q ∷ []), v.history_len);
        seq_slots =
            All-insert_written x laws (SlotSent (s.send_history ++ q ∷ [])) s.sender_window_size
              (fill_slot x s p now) s.by_seq_num (n, mine)
              (All-map _ _ (items s.by_seq_num) grow v.seq_slots);
        deadline_slots =
            All-insert_written x laws (SlotSent (s.send_history ++ q ∷ [])) s.sender_window_size
              (fill_slot x s p now) s.by_deadline (n, mine)
              (All-map _ _ (items s.by_deadline) grow v.deadline_slots);
        network =
            put_net-All (NetOk (s.send_history ++ q ∷ [])) ok q s.net (inr (n, mine))
              (All-map _ _ s.net (NetOk-append s.send_history q) v.network);
      }

  -- The fields that the numbering depends on.
  abbrev pub SameSends : SenderState x → SenderState x → Type 0
  SameSends s t =
      (t.last_frame_sent ≡ s.last_frame_sent)
      × (t.send_history ≡ s.send_history)
      × (t.by_seq_num ≡ s.by_seq_num)
      × (t.by_deadline ≡ s.by_deadline)
      × (t.net ≡ s.net)

  pub SameSends-IsNumbered :
      (n : ℕ) (s t : SenderState x) → SameSends s t → IsNumbered n s → IsNumbered n t
  SameSends-IsNumbered n s t (l, h, q, d, net) v = record {
    last = l ∙ v.last;
    history = rw h v.history;
    history_len = rw h v.history_len;
    seq_slots = rw (h, q) v.seq_slots;
    deadline_slots = rw (h, d) v.deadline_slots;
    network = rw (h, net) v.network;
  }
