-- ===== src/Asap/Sublist.antt =====
-- asap.go: the client gets what was queued, less what was dropped, in the order in which it came.
use go_sliding_window.Base.{
  ℕ, ◌≤◌, ◌≡◌, refl, subst, inl, inr, false, Option, none, some, List, [], ◌∷◌, ◌++◌, append-nil,
  append_assoc, length, length-append, length-drop, drop, arith, Bool-cases, if_elim,
}
use go_sliding_window.Base.Int.{pos, ltb_ℤ}
use go_sliding_window.Packet.{Packet}
use go_sliding_window.Asap.{
  AsapHelper, new_asap_helper, refill, offer, enqueue, AsapEvent, client, packet, append_some,
  asap_loop,
}

-- One list is what is left of another when some of its elements are dropped.
pub data IsSublist {ℓ} {A : Type ℓ} : List A → List A → Type ℓ where
  done : IsSublist [] []
  keep : {x : A} {xs ys : List A} → IsSublist xs ys → IsSublist (x ∷ xs) (x ∷ ys)
  skip : {y : A} {xs ys : List A} → IsSublist xs ys → IsSublist xs (y ∷ ys)

module _ {A : Type 0} where
  same-IsSublist : (xs : List A) → IsSublist xs xs
  same-IsSublist [] = done
  same-IsSublist (x ∷ xs) = keep (same-IsSublist xs)

  IsSublist-trans : (xs ys zs : List A) → IsSublist xs ys → IsSublist ys zs → IsSublist xs zs
  IsSublist-trans xs ys (z ∷ zs) a (skip b) = skip (IsSublist-trans xs ys zs a b)
  IsSublist-trans xs (y ∷ ys) (z ∷ zs) (skip a) (keep b) = skip (IsSublist-trans xs ys zs a b)
  IsSublist-trans (x ∷ xs) (y ∷ ys) (z ∷ zs) (keep a) (keep b) = keep (IsSublist-trans xs ys zs a b)
  IsSublist-trans xs [] [] a done = a
  IsSublist-trans xs (y ∷ ys) [] a b = elim b [ ]

  IsSublist-append : (xs ys zs : List A) → IsSublist xs ys → IsSublist (xs ++ zs) (ys ++ zs)
  IsSublist-append (x ∷ xs) [] zs a = elim a [ ]
  IsSublist-append [] [] zs done = same-IsSublist zs
  IsSublist-append (x ∷ xs) (y ∷ ys) zs (keep a) = keep (IsSublist-append xs ys zs a)
  IsSublist-append xs (y ∷ ys) zs (skip a) = skip (IsSublist-append xs ys zs a)

  drop-IsSublist : (xs ys : List A) → IsSublist xs ys → IsSublist (drop 1 xs) ys
  drop-IsSublist [] ys a = a
  drop-IsSublist (x ∷ xs) [] a = elim a [ ]
  drop-IsSublist (x ∷ xs) (y ∷ ys) (keep a) = skip a
  drop-IsSublist (x ∷ xs) (y ∷ ys) (skip a) = skip (drop-IsSublist (x ∷ xs) ys a)

-- What the helper holds, oldest first.
unfoldable pub held : AsapHelper → List Packet
held h = append_some h.next h.q

-- The packets that arrive.
abbrev pub arrivals : List AsapEvent → List Packet
arrivals [] = []
arrivals (client ∷ es) = arrivals es
arrivals (packet p ∷ es) = p ∷ arrivals es

held-refill : (h : AsapHelper) → held (refill h) ≡ held h
unfolding held refill
held-refill h = ground arith

held-offer : (h : AsapHelper) → append_some (offer h).1 (held (offer h).0) ≡ held h
unfolding offer held
held-offer h = held-refill h

offered-IsSublist :
    (o : Option Packet) (q q' : List Packet) (p : Packet)
    → IsSublist q' (q ++ p ∷ [])
    → IsSublist (append_some o q') (append_some o q ++ p ∷ [])
offered-IsSublist none q q' p a = a
offered-IsSublist (some o) q q' p a = keep a

got-IsSublist :
    (o : Option Packet) (got later now es : List Packet)
    → IsSublist (got ++ later) (now ++ es)
    → IsSublist (append_some o got ++ later) (append_some o now ++ es)
got-IsSublist none got later now es a = a
got-IsSublist (some o) got later now es a = keep a

held-enqueue : (h : AsapHelper) (p : Packet) → IsSublist (held (enqueue p h)) (held h ++ p ∷ [])
unfolding enqueue held
held-enqueue h p =
    let r = refill h in
    let longer = r.q ++ p ∷ [] in
    let shorter =
      if_elim (λ (q : List Packet). IsSublist q longer) (ltb_ℤ r.limit (pos (length longer)))
        (drop 1 longer) longer (drop-IsSublist longer longer (same-IsSublist longer))
        (same-IsSublist longer) in
    subst (λ (l : List Packet). IsSublist (held (enqueue p h)) (l ++ p ∷ [])) (held-refill h)
      (offered-IsSublist r.next r.q _ p shorter)

-- Whatever happens, what the client gets and then what is still held is, in this order, what was held
-- and then what arrived, with some packets dropped: none is made up, repeated or moved ahead.
pub asap_loop-IsSublist :
    (h : AsapHelper) (es : List AsapEvent)
    → IsSublist ((asap_loop h es).1 ++ held (asap_loop h es).0) (held h ++ arrivals es)
unfolding asap_loop
asap_loop-IsSublist h [] = rw (append-nil (held h)) (same-IsSublist (held h))
asap_loop-IsSublist h (client ∷ es) =
    let out = offer h in
    let rest = asap_loop-IsSublist out.0 es in
    subst
      (λ (l : List Packet).
        IsSublist (append_some out.1 (asap_loop out.0 es).1 ++ held (asap_loop out.0 es).0)
          (l ++ arrivals es))
      (held-offer h)
      (got-IsSublist out.1 (asap_loop out.0 es).1 (held (asap_loop out.0 es).0) (held out.0)
        (arrivals es) rest)
asap_loop-IsSublist h (packet p ∷ es) =
    let more =
      IsSublist-append (held (enqueue p h)) (held h ++ p ∷ []) (arrivals es) (held-enqueue h p) in
    IsSublist-trans _ (held (enqueue p h) ++ arrivals es) _ (asap_loop-IsSublist (enqueue p h) es) (
      subst (IsSublist (held (enqueue p h) ++ arrivals es))
        (append_assoc (held h) (p ∷ []) (arrivals es)) more)

abbrev Bounded : ℕ → AsapHelper → Type 0
Bounded m h = (h.limit ≡ pos m) × (length h.q ≤ m)

refill-Bounded : (m : ℕ) (h : AsapHelper) → Bounded m h → Bounded m (refill h)
unfolding refill
refill-Bounded m h b = ground (arith, b.0, b.1)

offer-Bounded : (m : ℕ) (h : AsapHelper) → Bounded m h → Bounded m (offer h).0
unfolding offer
offer-Bounded m h b = refill-Bounded m h b

enqueue-Bounded : (m : ℕ) (h : AsapHelper) (p : Packet) → Bounded m h → Bounded m (enqueue p h)
unfolding enqueue
enqueue-Bounded m h p b =
    let r = refill h in
    let v = refill-Bounded m h b in
    let longer = r.q ++ p ∷ [] in
    let n = length-append r.q (p ∷ []) in
    let d = length-drop 1 longer in
    (
      v.0,
      elim (Bool-cases (ltb_ℤ r.limit (pos (length longer)))) [
        | inl t ↦ rw t (omega (arith, n, d, v.1))
        | inr f ↦
            let le : ltb_ℤ (pos m) (pos (length longer)) ≡ false = rw v.0 at f in
            rw f (ground (arith, le))
      ],
    )

loop-Bounded :
    (m : ℕ) (h : AsapHelper) (es : List AsapEvent) → Bounded m h → Bounded m (asap_loop h es).0
unfolding asap_loop
loop-Bounded m h [] b = b
loop-Bounded m h (client ∷ es) b = loop-Bounded m (offer h).0 es (offer-Bounded m h b)
loop-Bounded m h (packet p ∷ es) b = loop-Bounded m (enqueue p h) es (enqueue-Bounded m h p b)

-- The queue of a new helper with a limit of `m` packets never holds more than `m`, besides the one
-- that is offered.
pub q-asap_loop :
    (m : ℕ) (es : List AsapEvent) → length (asap_loop (new_asap_helper (pos m)) es).0.q ≤ m
unfolding new_asap_helper
q-asap_loop m es = (loop-Bounded m (new_asap_helper (pos m)) es (refl, omega arith)).1
