-- ===== src/Recv/Moves.antt =====
-- recv.go: what a data packet makes the window deliver.
use go_sliding_window.Base.{
  ℕ, zero, suc, ◌≡◌, refl, sym, ◌∙◌, ap, subst, inl, inr, Option, none, some, List, [], ◌∷◌, ◌++◌,
  append_assoc, append-nil, Bool-cases, Option-cases, some_eq, get_or,
}
use go_sliding_window.Packet.{Packet, empty_slot}
use go_sliding_window.Base.Int.{eq_ℤ, pos, add_64}
use go_sliding_window.Window.{in_window, window_end}
use go_sliding_window.Recv.{Rx}
use go_sliding_window.Recv.Data.{
  slot_index, advance, deliver, deliver_fuel, store_data, hold, put_slot, or_panicked,
}
use go_sliding_window.Recv.Receive.{after_store}
use go_sliding_window.Base.{if_elim, ℕ, Bool, ◌||◌}
use go_sliding_window.Packet.{Time}
use go_sliding_window.Tcp.{is_data}
use go_sliding_window.Recv.{RecvState, RxFlow}
use go_sliding_window.Recv.Data.{Stored}
use go_sliding_window.Recv.Data
use go_sliding_window.Recv.Ack.{update_control}
use go_sliding_window.Recv.Handle.{
  Handled, handle_data, handle_info, accept_pack, handle_pack, track, lock_remote, is_foreign,
  is_corrupt,
}
use go_sliding_window.Recv.Handle
use go_sliding_window.Recv.Untouched.{HandledKeeps, rx-ack, rx-handle_info}

-- The window moves packets to the reader and to the history alike.
abbrev pub Moved : Rx → Rx → Type 0
Moved r s =
    (new : List Packet) × (s.ready_for_delivery ≡ r.ready_for_delivery ++ new)
    × (s.recv_history ≡ r.recv_history ++ new)

Moved-trans : (r s t : Rx) → Moved r s → Moved s t → Moved r t
Moved-trans r s t (a, ra, ha) (b, rb, hb) = (
  a ++ b,
  rb ∙ rw ra (append_assoc r.ready_for_delivery a b),
  hb ∙ rw ha (append_assoc r.recv_history a b),
)

advance-Moved :
    (i : ℕ) (r : Rx) (o : Option Packet)
    → (get_or r.rxq i empty_slot).pack ≡ o
    → Moved r (advance i r)
unfolding advance
advance-Moved i r none e =
    ([], rw e (sym (append-nil r.ready_for_delivery)), rw e (sym (append-nil r.recv_history)))
advance-Moved i r (some p) e = (p ∷ [], rw e refl, rw e refl)

deliver-Moved : (fuel : ℕ) (r s : Rx) → deliver fuel r ≡ some s → Moved r s
unfolding deliver
deliver-Moved zero r s h = absurd (cc)
deliver-Moved (suc fuel) r s h = elim (Option-cases (slot_index r r.next_frame_expected)) [
  | inl e ↦ let bad = rw (e, deliver) at h in absurd (cc)
  | inr (i, e) ↦ elim (Bool-cases (get_or r.rxq i empty_slot).received) [
    | inl t ↦
        let go = rw (e, t, deliver) at h in
        Moved-trans r (advance i r) s (advance-Moved i r _ refl)
          (deliver-Moved fuel (advance i r) s go)
    | inr t ↦
        let stop = rw (e, t, deliver) at h in
        let same : r ≡ s = cc in
        subst (Moved r) same
          ([], sym (append-nil r.ready_for_delivery), sym (append-nil r.recv_history))
  ]
]

abbrev nothing_new :
    (r : Rx)
    → (new : List Packet) × (r.ready_for_delivery ≡ r.ready_for_delivery ++ new)
      × (r.recv_history ≡ r.recv_history ++ new)
nothing_new r = ([], sym (append-nil r.ready_for_delivery), sym (append-nil r.recv_history))

or_panicked-Moved :
    (r s : Rx) (o : Option Rx)
    → ((t : Rx) → o ≡ some t → Moved r t)
    → after_store (or_panicked o) ≡ some s
    → Moved r s
or_panicked-Moved r s none h e = absurd (cc)
or_panicked-Moved r s (some t) h e = let same : t ≡ s = some_eq e in h s (ap some same)

-- Whatever a data packet makes the window deliver goes, in one and the same order, to the end of what
-- is ready for the application and to the end of the history.
pub store_data-moves :
    (r s : Rx) (p : Packet)
    → after_store (store_data r p) ≡ some s
    → (new : List Packet) × (s.ready_for_delivery ≡ r.ready_for_delivery ++ new)
      × (s.recv_history ≡ r.recv_history ++ new)
unfolding store_data hold put_slot
store_data-moves r s p h =
    let held = hold r p in
    let inside =
      in_window p.seq_num held.next_frame_expected
        (window_end held.next_frame_expected held.recv_window_size) in
    elim (Option-cases (slot_index held p.seq_num)) [
      | inl e ↦ let bad = rw (e, store_data) at h in absurd (cc)
      | inr (i, e) ↦ elim (Bool-cases inside) [
        | inl t ↦ elim (Bool-cases (eq_ℤ p.seq_num held.next_frame_expected)) [
          | inl n ↦
              let go = rw (e, t, n, store_data) at h in
              or_panicked-Moved r s (deliver (deliver_fuel held) (put_slot i p held))
                (λ q eq. deliver-Moved (deliver_fuel held) (put_slot i p held) q eq) go
          | inr n ↦
              let go = rw (e, t, n, store_data) at h in
              let same : put_slot i p held ≡ s = some_eq go in subst (Moved r) same (nothing_new r)
        ]
        | inr t ↦
            let go = rw (e, t, store_data) at h in
            let same : record held { discard_count = add_64 held.discard_count (pos 1) } ≡ s =
              some_eq go in
            subst (Moved r) same (nothing_new r)
      ]
    ]

-- The same for whatever the network hands to the receiver: nothing but data moves packets.
stored-Moved :
    (r : RecvState) (p : Packet) (now : Time) (out : Stored)
    → store_data r.rx p ≡ out
    → ((s : Rx) → after_store out ≡ some s → Moved r.rx s)
    → HandledKeeps (Moved r.rx) (handle_data r p now)
unfolding handle_data
stored-Moved r p now Data.panicked e v = rw (e, handle_data) tt
stored-Moved r p now (Data.discarded rx) e v = rw (e, handle_data, rx-ack) (v rx refl)
stored-Moved r p now (Data.stored rx) e v = rw (e, handle_data) (v rx refl)
stored-Moved r p now (Data.advanced rx) e v = rw (e, handle_data) (v rx refl)

handle_data-Moved :
    (r : RecvState) (p : Packet) (now : Time) → HandledKeeps (Moved r.rx) (handle_data r p now)
handle_data-Moved r p now =
    stored-Moved r p now (store_data r.rx p) refl (λ s e. store_data-moves r.rx s p e)

info-Moved :
    (rx : Rx) (out : Handled) → HandledKeeps (λ q. q ≡ rx) out → HandledKeeps (Moved rx) out
info-Moved rx Handle.panicked h = tt
info-Moved rx Handle.still_going h = tt
info-Moved rx (Handle.running r) h = subst (Moved rx) (sym h) (nothing_new rx)
info-Moved rx (Handle.ended r) h = subst (Moved rx) (sym h) (nothing_new rx)

accept-Moved :
    (r : RecvState) (p : Packet) (now wall : Time) (f : Option RxFlow)
    → track r.flow p ≡ f
    → HandledKeeps (Moved r.rx) (accept_pack r p now wall)
unfolding accept_pack update_control
accept-Moved r p now wall none e = rw (e, accept_pack) tt
accept-Moved r p now wall (some f) e =
    rw (e, accept_pack)
      (if_elim (HandledKeeps (Moved r.rx)) (is_data p.tcp_event) (handle_data _ p now)
        (handle_info 2 _ p.tcp_event p now wall) (handle_data-Moved _ p now)
        (info-Moved r.rx (handle_info 2 _ p.tcp_event p now wall)
          (rx-handle_info 2 r.rx _ p.tcp_event p now wall refl)))

pub handle_pack-Moved :
    (blake2b : List ℕ → List ℕ) (r : RecvState) (p : Packet) (now wall : Time) (taken : Bool)
    → HandledKeeps (Moved r.rx) (handle_pack blake2b r p now wall taken)
unfolding handle_pack
handle_pack-Moved blake2b r p now wall taken =
    if_elim (HandledKeeps (Moved r.rx))
      (is_foreign (lock_remote r.conn p) p || is_corrupt blake2b p) (Handle.running _) _
      (nothing_new r.rx)
      (accept-Moved _ (record p { arrived_at_dest_tm = now }) now wall
        (track r.flow (record p { arrived_at_dest_tm = now })) refl)
