-- ===== src/Recv/Read.antt =====
-- recv.go: `fillAsMuchAsPossible` as a reader of bytes.
use go_sliding_window.Base.{
  ℕ, zero, suc, ◌≤◌, ◌≡◌, ◌≢◌, refl, sym, ◌∙◌, ap, ◌⊎◌, inl, inr, false, Option, none, some, List,
  [], ◌∷◌, ◌++◌, append_assoc, length, length-append, length-take, take, drop, take-append-drop,
  drop-drop, arith, Bool-cases, leb, ◌==◌,
}
use go_sliding_window.Packet.{Packet, Time}
use go_sliding_window.Recv.{RecvState}
use go_sliding_window.Recv.Untouched.{rx-ack}
use go_sliding_window.Recv.Consume.{
  ReadRequest, copied, unread, fill_request, consume_whole, consume_part, fill_loop, ack_last,
  fill_as_much_as_possible,
}

-- The bytes of the packets from where the application has read them to.
unfoldable pub unread_bytes : List Packet → List ℕ
unread_bytes [] = []
unread_bytes (p ∷ ps) = unread p ++ unread_bytes ps

-- What a reader has got, and what is left for it, from `ps` on.
abbrev Fills : List Packet → ReadRequest → RecvState × ReadRequest × Option Packet → Type 0
Fills ps rr out =
    (out.1.got ++ unread_bytes out.0.rx.ready_for_delivery ≡ rr.got ++ unread_bytes ps)
    × (length out.1.got ≤ rr.cap)
    × (out.1.cap ≡ rr.cap)
    × (length rr.got ≤ length out.1.got)
    × ((length out.1.got ≡ rr.cap) ⊎ (out.0.rx.ready_for_delivery ≡ []))

take_all : {A : Type 0} (xs : List A) → take (length xs) xs ≡ xs
take_all [] = refl
take_all (x ∷ xs) = ap (λ ys. x ∷ ys) (take_all xs)

copied-le :
    (rr : ReadRequest) (p : Packet)
    → length rr.got ≤ rr.cap
    → (length (fill_request rr p).got ≤ rr.cap) × (length rr.got ≤ length (fill_request rr p).got)
unfolding fill_request
copied-le rr p h =
    let n = length-append rr.got (take (copied rr p) (unread p)) in
    let m = length-take (copied rr p) (unread p) in (omega (arith, n, m), omega (arith, n, m))

-- A packet that is read in part has filled the buffer.
part_fills :
    (rr : ReadRequest) (p : Packet)
    → length rr.got ≤ rr.cap
    → copied rr p ≢ length (unread p)
    → length (fill_request rr p).got ≡ rr.cap
unfolding fill_request
part_fills rr p h ne =
    let n = length-append rr.got (take (copied rr p) (unread p)) in
    let m = length-take (copied rr p) (unread p) in omega (arith, n, m, ne)

part-Fills :
    (r : RecvState) (p : Packet) (rest : List Packet) (rr : ReadRequest) (last : Option Packet)
    → length rr.got ≤ rr.cap
    → copied rr p ≢ length (unread p)
    → Fills (p ∷ rest) rr (consume_part r p (copied rr p) rest, fill_request rr p, last)
unfolding consume_part fill_request unread_bytes
part-Fills r p rest rr last h ne =
    let m = copied rr p in
    let size = copied-le rr p h in
    let cut = take-append-drop m (unread p) in
    (
      rw
          (
            sym (drop-drop m p.data_offset p.payload),
            append_assoc rr.got (take m (unread p)) (drop m (unread p) ++ unread_bytes rest),
            sym (append_assoc (take m (unread p)) (drop m (unread p)) (unread_bytes rest)),
            cut,
          )
          refl,
      size.0,
      refl,
      size.1,
      inl (part_fills rr p h ne),
    )

whole-Fills :
    (r : RecvState) (p : Packet) (rest : List Packet) (rr : ReadRequest) (last : Option Packet)
    → length rr.got ≤ rr.cap
    → copied rr p ≡ length (unread p)
    → rr.cap ≤ length (fill_request rr p).got
    → Fills (p ∷ rest) rr (consume_whole r p rest, fill_request rr p, last)
unfolding consume_whole fill_request unread_bytes
whole-Fills r p rest rr last h e full =
    let size = copied-le rr p h in
    (
      rw (e, take_all) (append_assoc rr.got (unread p) (unread_bytes rest)),
      size.0,
      refl,
      size.1,
      inl (omega (arith, size.0, full)),
    )

-- Filling a request and going on with the rest.
Fills-then :
    (p : Packet) (rest : List Packet) (rr : ReadRequest)
    (out : RecvState × ReadRequest × Option Packet)
    → length rr.got ≤ rr.cap
    → copied rr p ≡ length (unread p)
    → Fills rest (fill_request rr p) out
    → Fills (p ∷ rest) rr out
unfolding fill_request unread_bytes
Fills-then p rest rr out h e (bytes, le, room, grows, ends) =
    let size = copied-le rr p h in
    let more : length rr.got ≤ length (fill_request rr p).got = size.1 in
    (
      bytes
          ∙ ap (λ (ys : List ℕ). (rr.got ++ ys) ++ unread_bytes rest)
              (ap (λ k. take k (unread p)) e ∙ take_all (unread p))
          ∙ append_assoc rr.got (unread p) (unread_bytes rest),
      le,
      room,
      omega (arith, more, grows),
      ends,
    )

fill_loop-Fills :
    (ps : List Packet) (r : RecvState) (rr : ReadRequest) (last : Option Packet)
    → r.rx.ready_for_delivery ≡ ps
    → length rr.got ≤ rr.cap
    → Fills ps rr (fill_loop ps r rr last)
unfolding fill_loop
fill_loop-Fills [] r rr last e h = (rw e refl, h, refl, omega arith, inr e)
fill_loop-Fills (p ∷ rest) r rr last e h = elim (Bool-cases (copied rr p == length (unread p))) [
  | inl t ↦
      let all : copied rr p ≡ length (unread p) = ground (arith, t) in
      elim (Bool-cases (leb rr.cap (length (fill_request rr p).got))) [
        | inl full ↦ rw (t, full) (whole-Fills r p rest rr (some p) h all (ground (arith, full)))
        | inr room ↦
            rw (t, room)
              (Fills-then p rest rr
                (fill_loop rest (consume_whole r p rest) (fill_request rr p) (some p)) h all
                (fill_loop-Fills rest (consume_whole r p rest) (fill_request rr p) (some p) refl
                  (copied-le rr p h).0))
      ]
  | inr t ↦ rw t (part-Fills r p rest rr last h (ground (arith, t)))
]

ready-ack_last :
    (r : RecvState) (last : Option Packet) (now : Time) → (ack_last r last now).rx ≡ r.rx
ready-ack_last r none now = refl
ready-ack_last r (some p) now = rx-ack r _ (some p) _ now

-- A `Read` into an empty buffer conserves the bytes: those that it gets, followed by those that are
-- left for the next one, are those that were there; and it gets as much as possible: the buffer is
-- full, or nothing is left.
pub fill-conserves :
    (r : RecvState) (size : ℕ) (now : Time)
    → let out = fill_as_much_as_possible r (record { cap = size; got = [] }) now in
      (out.1.got ++ unread_bytes out.0.rx.ready_for_delivery ≡ unread_bytes r.rx.ready_for_delivery)
      × ((length out.1.got ≡ size) ⊎ (out.0.rx.ready_for_delivery ≡ []))
unfolding fill_as_much_as_possible
fill-conserves r zero now = (refl, inl refl)
fill-conserves r (suc size) now =
    let rr : ReadRequest = record { cap = suc size; got = [] } in
    let out = fill_loop r.rx.ready_for_delivery r rr none in
    let f = fill_loop-Fills r.rx.ready_for_delivery r rr none refl (omega arith) in
    let nonzero : (suc size == 0) ≡ false = ground arith in
    rw (nonzero, ready-ack_last out.0 out.2 now) (f.0, f.4)
