-- ===== src/Asap.antt =====
-- asap.go: the queue of packets for clients that want them as soon as possible, in any order.
pub mod Sublist
use go_sliding_window.Base.{
  ℕ, Bool, true, false, Option, none, some, List, [], ◌∷◌, ◌++◌, length, drop, if◌then◌else◌,
}
use go_sliding_window.Base.Int.{ℤ, pos, ltb_ℤ}
use go_sliding_window.Packet.{Packet}

-- `next` is the packet that the goroutine has taken out of the queue and offers on `rcv`.
pub record AsapHelper : Type 0 where
  pub limit : ℤ
  pub next : Option Packet
  pub q : List Packet

unfoldable pub new_asap_helper : ℤ → AsapHelper
new_asap_helper max = record { limit = max; next = none; q = [] }

-- The top of the loop: if nothing is offered, the oldest packet is.
unfoldable pub refill : AsapHelper → AsapHelper
refill h = elim h.next [
  | some p ↦ h
  | none ↦ elim h.q [ [] ↦ h | p ∷ ps ↦ record h { next = some p; q = ps } ]
]

-- The case `rch <- next`, for a client that receives now: the packet that it gets, if any is offered.
unfoldable pub offer : AsapHelper → AsapHelper × Option Packet
unfolding refill
offer h = let r = refill h in (record r { next = none }, r.next)

-- The case `<-r.enqueue`: beyond the limit the first one is dropped.
unfoldable pub enqueue : Packet → AsapHelper → AsapHelper
unfolding refill
enqueue p h =
    let r = refill h in
    let longer = r.q ++ p ∷ [] in
    record r { q = if ltb_ℤ r.limit (pos (length longer)) then drop 1 longer else longer }

pub data AsapEvent : Type 0 where
  client : AsapEvent
  packet : Packet → AsapEvent

abbrev pub append_some : Option Packet → List Packet → List Packet
append_some none ps = ps
append_some (some p) ps = p ∷ ps

-- The loop over the events that happen: the state, and what the client got, oldest first.
unfoldable pub asap_loop : AsapHelper → List AsapEvent → AsapHelper × List Packet
unfolding offer enqueue
asap_loop h [] = (h, [])
asap_loop h (client ∷ es) =
    let (h', got) = offer h in let (last, rest) = asap_loop h' es in (last, append_some got rest)
asap_loop h (packet p ∷ es) = asap_loop (enqueue p h) es
