-- ===== src/Link/Ledger.antt =====
-- recv.go: the bytes that the application gets in a run, and the account of them that the receiver keeps.
use go_sliding_window.Base.{
  ℕ, suc, ◌≡◌, refl, sym, ◌∙◌, ap, subst, List, [], ◌∷◌, ◌++◌, append-nil, append_assoc, All,
  AllFrom,
}
use go_sliding_window.Packet.{Packet, Time}
use go_sliding_window.Externals.{Externals}
use go_sliding_window.Sender.History.{IsSent, All-append_right}
use go_sliding_window.Recv.{RecvState, Rx}
use go_sliding_window.Recv.Order.{Frame}
use go_sliding_window.Recv.Consume.{
  deliver_to_consumer, end_delivery, fill_as_much_as_possible, unread,
}
use go_sliding_window.Recv.Ack.{ack, update_control}
use go_sliding_window.Recv.Read.{unread_bytes}
use go_sliding_window.Recv.Moves.{Moved}
use go_sliding_window.Session.Write.{bytes_of}
use go_sliding_window.Link.{
  World, Run, start, push, wake, hear_pack, keep_alive, closing, share, acknowledge, connect_out,
  arrive, retry, connect_in, consume, read,
}
use go_sliding_window.Link.Sent.{payloads}
use go_sliding_window.Link.Sent.{get_elem?-All}

unread_bytes-append :
    (xs ys : List Packet) → unread_bytes (xs ++ ys) ≡ unread_bytes xs ++ unread_bytes ys
unfolding unread_bytes
unread_bytes-append [] ys = refl
unread_bytes-append (x ∷ xs) ys =
    rw (unread_bytes-append xs ys)
      (sym (append_assoc (unread x) (unread_bytes xs) (unread_bytes ys)))

bytes_of-append : (xs ys : List Packet) → bytes_of (xs ++ ys) ≡ bytes_of xs ++ bytes_of ys
unfolding bytes_of
bytes_of-append [] ys = refl
bytes_of-append (x ∷ xs) ys =
    rw (bytes_of-append xs ys) (sym (append_assoc x.payload (bytes_of xs) (bytes_of ys)))

abbrev pub flat : List (List ℕ) → List ℕ
flat [] = []
flat (b ∷ bs) = b ++ flat bs

pub bytes_of-payloads : (ps : List Packet) → bytes_of ps ≡ flat (payloads ps)
unfolding bytes_of
bytes_of-payloads [] = refl
bytes_of-payloads (p ∷ ps) = ap (λ bs. p.payload ++ bs) (bytes_of-payloads ps)

-- No byte of the packet was read.
abbrev pub Untouched : Packet → Type 0
Untouched p = p.data_offset ≡ 0

whole_bytes : (ps : List Packet) → All Untouched ps → unread_bytes ps ≡ bytes_of ps
unfolding unread_bytes bytes_of
whole_bytes [] h = refl
whole_bytes (p ∷ ps) h = rw (h.0, whole_bytes ps h.1) refl

-- Packets of the history are untouched if those that were sent are.
pub frames-Untouched :
    (h : List Packet) (w i : ℕ) (ps : List Packet)
    → All Untouched h
    → AllFrom (Frame (IsSent h) w) i ps
    → All Untouched ps
frames-Untouched h w i [] a f = tt
frames-Untouched h w i (p ∷ ps) a f =
    let s = f.0.1 in
    (
      sym s.offset ∙ get_elem?-All Untouched h i s.original a s.at,
      frames-Untouched h w (suc i) ps a f.1,
    )

pub delivery_bytes :
    (r : RecvState) (now : Time) (q : List Packet)
    → r.rx.ready_for_delivery ≡ q
    → unread_bytes (deliver_to_consumer r now).1
        ++ unread_bytes (deliver_to_consumer r now).0.rx.ready_for_delivery
      ≡ unread_bytes r.rx.ready_for_delivery
unfolding deliver_to_consumer end_delivery ack update_control unread_bytes
delivery_bytes r now [] e = rw (e, deliver_to_consumer) (ap unread_bytes e)
delivery_bytes r now (p ∷ ps) e = rw (e, deliver_to_consumer) (append-nil (unread_bytes (p ∷ ps)))

module _ (x : Externals) (w : ℕ) where
  -- The application pushes only packets of which nothing was read.
  abbrev pub FromStart : {n : ℕ} {u : World x} → Run x w n u → Type 0
  FromStart
        (start window timeout inbox dest interval failed nonce now bytes inbox' dest' nonce' snd) =
      Unit
  FromStart (push p now ok run open_) = Untouched p × FromStart run
  FromStart (wake now clk ok s run e) = FromStart run
  FromStart (hear_pack a now s run e) = FromStart run
  FromStart (keep_alive state since now ok run) = FromStart run
  FromStart (closing now ok run) = FromStart run
  FromStart (share flow consumed run) = FromStart run
  FromStart (acknowledge j ack ok run neg idle) = FromStart run
  FromStart (connect_out j cr syn ok run neg idle) = FromStart run
  FromStart (arrive i p now wall taken r run at e) = FromStart run
  FromStart (retry now clk r run e) = FromStart run
  FromStart (connect_in cr run) = FromStart run
  FromStart (consume now run) = FromStart run
  FromStart (read room now run) = FromStart run

  -- The bytes that the application has got in the run, by packets and by reads.
  abbrev pub bytes_got : {n : ℕ} {u : World x} → Run x w n u → List ℕ
  bytes_got
        (start window timeout inbox dest interval failed nonce now bytes inbox' dest' nonce' snd) =
      []
  bytes_got (push p now ok run open_) = bytes_got run
  bytes_got (wake now clk ok s run e) = bytes_got run
  bytes_got (hear_pack a now s run e) = bytes_got run
  bytes_got (keep_alive state since now ok run) = bytes_got run
  bytes_got (closing now ok run) = bytes_got run
  bytes_got (share flow consumed run) = bytes_got run
  bytes_got (acknowledge j ack ok run neg idle) = bytes_got run
  bytes_got (connect_out j cr syn ok run neg idle) = bytes_got run
  bytes_got (arrive i p now wall taken r run at e) = bytes_got run
  bytes_got (retry now clk r run e) = bytes_got run
  bytes_got (connect_in cr run) = bytes_got run
  bytes_got (consume {u = u} now run) =
      bytes_got run ++ unread_bytes (deliver_to_consumer u.receiver now).1
  bytes_got (read {u = u} room now run) =
      bytes_got run
      ++ (fill_as_much_as_possible u.receiver (record { cap = room; got = [] }) now).1.got

-- What the application has got and what is ready for it is what the window has put in order.
abbrev pub Ledger : List ℕ → Rx → Type 0
Ledger got rx = got ++ unread_bytes rx.ready_for_delivery ≡ bytes_of rx.recv_history

pub Moved-Ledger :
    (got : List ℕ) (r s : Rx)
    → Moved r s
    → All Untouched s.recv_history
    → Ledger got r
    → Ledger got s
Moved-Ledger got r s (new, ready, history) h l =
    let fresh = All-append_right Untouched r.recv_history new (subst (All Untouched) history h) in
    rw
      (
        ready,
        history,
        unread_bytes-append,
        bytes_of-append,
        whole_bytes new fresh,
        sym (append_assoc got (unread_bytes r.ready_for_delivery) (bytes_of new)),
        l,
      )
      refl

pub taken-Ledger :
    (got more : List ℕ) (r s : Rx)
    → more ++ unread_bytes s.ready_for_delivery ≡ unread_bytes r.ready_for_delivery
    → s.recv_history ≡ r.recv_history
    → Ledger got r
    → Ledger (got ++ more) s
taken-Ledger got more r s e h l =
    rw (append_assoc got more (unread_bytes s.ready_for_delivery), e, h) l
