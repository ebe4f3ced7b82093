-- ===== src/Tcp/Order.antt =====
-- tcp.go: the transitions only go forward, and a connection is established only by a handshake.
use go_sliding_window.Base.{
  ℕ, suc, ◌+◌, ◌≤◌, ◌<◌, ◌≡◌, ◌≢◌, ◌∙◌, ap, ◌↔◌, if_elim, ◌⊎◌, inl, inr, true, List, [], ◌∷◌, arith,
  if◌then◌else◌,
}
use go_sliding_window.Tcp.{
  TcpState, fresh, closed, listen, syn_received, syn_sent, established,
  close_initiator_has_sent_fin, close_responder_got_fin, unknown_state, TcpEvent, event_syn_ack,
  event_estab_ack, event_start_close, event_fin, event_keep_alive, update_tcp, state_int,
}
use go_sliding_window.Base.Int.{eq_ℤ, eq_ℤ_self}

-- How far a connection has come.
abbrev pub phase : TcpState → ℕ
phase fresh = 0
phase listen = 1
phase syn_sent = 1
phase syn_received = 2
phase established = 3
phase close_initiator_has_sent_fin = 4
phase close_responder_got_fin = 4
phase closed = 5
phase (unknown_state n) = 6

update-phase :
    (s : TcpState) (e : TcpEvent) (from : TcpState)
    → ((update_tcp s e from).0 ≡ s) ⊎ (phase s < phase (update_tcp s e from).0)
unfolding update_tcp
update-phase s e from = ground arith

phase-le : (s : TcpState) → phase s ≤ 6
phase-le s = ground arith

-- The state after a list of events, each with the state that its packet reports, and how often the
-- state has changed.
unfoldable pub follow : TcpState → List (TcpEvent × TcpState) → TcpState × ℕ
follow s [] = (s, 0)
follow s ((e, from) ∷ es) =
    let next = (update_tcp s e from).0 in
    let (last, n) = follow next es in
    (last, if eq_ℤ (state_int next) (state_int s) then n else suc n)

follow-phase :
    (s : TcpState) (es : List (TcpEvent × TcpState))
    → phase s + (follow s es).1 ≤ phase (follow s es).0
unfolding follow
follow-phase s [] = omega arith
follow-phase s ((e, from) ∷ es) =
    let next = (update_tcp s e from).0 in
    let rest = follow-phase next es in
    elim (update-phase s e from) [
      | inl same ↦
          let test : eq_ℤ (state_int next) (state_int s) ≡ true =
            ap (λ t. eq_ℤ (state_int t) (state_int s)) same ∙ eq_ℤ_self (state_int s) in
          let at : phase next ≡ phase s = ap phase same in rw test (omega (arith, at, rest))
      | inr grows ↦
          if_elim (λ n. phase s + n ≤ phase (follow next es).0)
            (eq_ℤ (state_int next) (state_int s)) (follow next es).1 (suc (follow next es).1)
            (omega (arith, rest, grows)) (omega (arith, rest, grows))
    ]

-- A connection only goes forward: whatever events it sees, and whatever its peer reports, from
-- `Listen` on its state changes at most five times.
pub follow-le : (es : List (TcpEvent × TcpState)) → (follow listen es).1 ≤ 5
follow-le es =
    let f = follow-phase listen es in let b = phase-le (follow listen es).0 in omega (arith, f, b)

-- How a connection gets to be established: it was, or a client in `SynSent` gets a SYN-ACK, or a
-- server in `SynReceived` gets the acknowledgement of that, or, where that was lost, a keep-alive of
-- an established peer. Nothing else does it.
pub established_iff :
    (s : TcpState) (e : TcpEvent) (from : TcpState)
    → ((update_tcp s e from).0 ≡ established) ↔ (
        ((s ≡ established) × (e ≢ event_start_close) × (e ≢ event_fin))
        ⊎ ((s ≡ syn_sent) × (e ≡ event_syn_ack))
        ⊎ ((s ≡ syn_received) × (e ≡ event_estab_ack))
        ⊎ ((s ≡ syn_received) × (e ≡ event_keep_alive) × (from ≡ established)))
unfolding update_tcp
established_iff s e from = ground arith
