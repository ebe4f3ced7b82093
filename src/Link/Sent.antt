-- ===== src/Link/Sent.antt =====
-- sender.go, recv.go: what the receiver has put in order is a prefix of the history.
use go_sliding_window.Base.{
  ℕ, zero, suc, ◌+◌, ◌≤◌, ◌<◌, ◌≡◌, refl, subst, some, List, [], ◌∷◌, map, All, AllFrom, length,
  get_elem?, get_elem?-lt, take, drop, arith, String,
}
use go_sliding_window.Base.Int.{ℤ}
use go_sliding_window.Packet.{Packet}
use go_sliding_window.Sender.History.{IsSent}
use go_sliding_window.Recv.{Rx, SndLink, new_recv_state}
use go_sliding_window.Recv.Order.{IsOrdered, Frame}
use go_sliding_window.Recv.Receive.{Inv, new_rx-Inv}
use go_sliding_window.Recv.Stream.{AllFrom-last}

abbrev pub payloads : List Packet → List (List ℕ)
payloads ps = map (λ (p : Packet). p.payload) ps

pub sent-le : (h : List Packet) (w m : ℕ) (r : Rx) → IsOrdered (IsSent h) w m r → m ≤ length h
sent-le h w zero r v = omega arith
sent-le h w (suc m) r v =
    let (p, (e, i)) =
      AllFrom-last (Frame (IsSent h) w) 0 m r.recv_history v.history v.history_len in
    omega (arith, get_elem?-lt h (0 + m) i.original i.at)

get_elem?-cons :
    {A : Type 0} (xs : List A) (i : ℕ) (y : A)
    → get_elem? xs i ≡ some y
    → drop i xs ≡ y ∷ drop (suc i) xs
get_elem?-cons [] i y e = absurd (cc)
get_elem?-cons (z ∷ xs) zero y e = cc
get_elem?-cons (z ∷ xs) (suc i) y e = get_elem?-cons xs i y e

-- A list each of whose elements carries the payload of its place is a stretch of the history.
pub sent-take :
    (h : List Packet) (w i : ℕ) (xs : List Packet)
    → AllFrom (Frame (IsSent h) w) i xs
    → payloads xs ≡ payloads (take (length xs) (drop i h))
sent-take h w i [] a = refl
sent-take h w i (p ∷ xs) a =
    let s = a.0.1 in
    rw (get_elem?-cons h i s.original s.at, s.payload, sent-take h w (suc i) xs a.1) refl

pub get_elem?-All :
    {A : Type 0} (P : A → Type 0) (xs : List A) (i : ℕ) (y : A)
    → All P xs
    → get_elem? xs i ≡ some y
    → P y
get_elem?-All P [] i y h e = absurd (cc)
get_elem?-All P (z ∷ xs) zero y h e = let same : z ≡ y = cc in subst P same h.0
get_elem?-All P (z ∷ xs) (suc i) y h e = get_elem?-All P xs i y h.1 e

pub new_recv-Inv :
    (P : ℕ → Packet → Type 0) (w : ℕ) (bytes : ℤ) (inbox dest nonce : String) (snd : SndLink)
    → 0 < w
    → Inv P w 0 (new_recv_state w bytes inbox dest nonce snd).rx
unfolding new_recv_state
new_recv-Inv P w bytes inbox dest nonce snd h = new_rx-Inv P w h
