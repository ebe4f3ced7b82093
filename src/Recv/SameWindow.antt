-- ===== src/Recv/SameWindow.antt =====
-- recv.go: delivery to the application leaves the window alone.
use go_sliding_window.Base.{
  ◌≡◌, refl, ◌∙◌, ap, Option, none, some, List, [], ◌∷◌, if_elim, if◌then◌else◌, length, leb, ◌==◌,
}
use go_sliding_window.Packet.{Packet, Time}
use go_sliding_window.Recv.{RecvState, Rx}
use go_sliding_window.Recv.Ack.{update_control, ack}
use go_sliding_window.Recv.Consume.{
  ReadRequest, consume_packs, consume_pack, end_delivery, deliver_to_consumer, last_pack, copied,
  unread, fill_request, consume_whole, consume_part, fill_loop, ack_last, fill_as_much_as_possible,
}
use go_sliding_window.Recv.Untouched.{rx-ack}

-- What the window invariant depends on.
abbrev pub SameWindow : Rx → Rx → Type 0
SameWindow r s =
    (s.next_frame_expected ≡ r.next_frame_expected)
    × (s.recv_window_size ≡ r.recv_window_size)
    × (s.rxq ≡ r.rxq)
    × (s.recv_history ≡ r.recv_history)

SameWindow-trans : (r s t : Rx) → SameWindow r s → SameWindow s t → SameWindow r t
SameWindow-trans r s t (a, b, c, d) (e, f, g, h) = (e ∙ a, f ∙ b, g ∙ c, h ∙ d)

SameWindow-rx : (r s : Rx) → s ≡ r → SameWindow r s
SameWindow-rx r s e = (
  ap (λ (q : Rx). q.next_frame_expected) e,
  ap (λ (q : Rx). q.recv_window_size) e,
  ap (λ (q : Rx). q.rxq) e,
  ap (λ (q : Rx). q.recv_history) e,
)

consume_packs-SameWindow :
    (r : RecvState) (ps : List Packet) → SameWindow r.rx (consume_packs r ps).rx
unfolding consume_packs
consume_packs-SameWindow r [] = (refl, refl, refl, refl)
consume_packs-SameWindow r (p ∷ ps) = consume_packs-SameWindow (consume_pack r p) ps

end_delivery-SameWindow :
    (r : RecvState) (p : Packet) (now : Time) → SameWindow r.rx (end_delivery r p now).rx
unfolding end_delivery ack update_control
end_delivery-SameWindow r p now = (refl, refl, refl, refl)

pub delivery-SameWindow :
    (r : RecvState) (now : Time) (q : List Packet)
    → r.rx.ready_for_delivery ≡ q
    → SameWindow r.rx (deliver_to_consumer r now).0.rx
unfolding deliver_to_consumer
delivery-SameWindow r now [] e = rw (e, deliver_to_consumer) (refl, refl, refl, refl)
delivery-SameWindow r now (p ∷ ps) e =
    rw (e, deliver_to_consumer)
      (SameWindow-trans r.rx (consume_packs r (p ∷ ps)).rx
        (end_delivery (consume_packs r (p ∷ ps)) (last_pack p ps) now).rx
        (consume_packs-SameWindow r (p ∷ ps))
        (end_delivery-SameWindow (consume_packs r (p ∷ ps)) (last_pack p ps) now))

fill_loop-SameWindow :
    (ps : List Packet) (r : RecvState) (rr : ReadRequest) (last : Option Packet)
    → SameWindow r.rx (fill_loop ps r rr last).0.rx
unfolding fill_loop
fill_loop-SameWindow [] r rr last = (refl, refl, refl, refl)
fill_loop-SameWindow (p ∷ rest) r rr last =
    let rr' = fill_request rr p in
    let whole = consume_whole r p rest in
    if_elim (λ (o : RecvState × ReadRequest × Option Packet). SameWindow r.rx o.0.rx)
      (copied rr p == length (unread p))
      (if leb rr'.cap (length rr'.got)
        then (whole, rr', some p)
        else fill_loop rest whole rr' (some p))
      (consume_part r p (copied rr p) rest, rr', last)
      (if_elim (λ (o : RecvState × ReadRequest × Option Packet). SameWindow r.rx o.0.rx)
        (leb rr'.cap (length rr'.got)) (whole, rr', some p) (fill_loop rest whole rr' (some p))
        (refl, refl, refl, refl) (fill_loop-SameWindow rest whole rr' (some p)))
      (refl, refl, refl, refl)

ack_last-SameWindow :
    (r : RecvState) (last : Option Packet) (now : Time) → SameWindow r.rx (ack_last r last now).rx
ack_last-SameWindow r none now = (refl, refl, refl, refl)
ack_last-SameWindow r (some p) now = SameWindow-rx r.rx _ (rx-ack r _ (some p) _ now)

pub fill-SameWindow :
    (r : RecvState) (rr : ReadRequest) (now : Time)
    → SameWindow r.rx (fill_as_much_as_possible r rr now).0.rx
unfolding fill_as_much_as_possible
fill-SameWindow r rr now =
    let out = fill_loop r.rx.ready_for_delivery r rr none in
    if_elim (λ (o : RecvState × ReadRequest). SameWindow r.rx o.0.rx) (rr.cap == 0) (r, rr)
      (ack_last out.0 out.2 now, out.1) (refl, refl, refl, refl)
      (SameWindow-trans r.rx out.0.rx (ack_last out.0 out.2 now).rx
        (fill_loop-SameWindow r.rx.ready_for_delivery r rr none)
        (ack_last-SameWindow out.0 out.2 now))
