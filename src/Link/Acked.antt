-- ===== src/Link/Acked.antt =====
-- sender.go: what was acknowledged in a run, and when the entries of `Txq` are enough for it.
use go_sliding_window.Base.{ℕ, ◌⊎◌}
use go_sliding_window.Base.Int.{pos, ◌≤ℤ◌}
use go_sliding_window.Externals.{Externals}
use go_sliding_window.Sender.Unacked.{EntryFree}
use go_sliding_window.Link.{
  World, Run, start, push, wake, hear_pack, keep_alive, closing, share, acknowledge, connect_out,
  arrive, retry, connect_in, consume, read,
}

module _ (x : Externals) (w : ℕ) where
  -- Some packet that the sender got in the run acknowledges frame `k`.
  abbrev pub Acked : {n : ℕ} {u : World x} → ℕ → Run x w n u → Type 0
  Acked k
        (start window timeout inbox dest interval failed nonce now bytes inbox' dest' nonce' snd) =
      ⊥
  Acked k (push p now ok run open_) = Acked k run
  Acked k (wake now clk ok s run e) = Acked k run
  Acked k (hear_pack a now s run e) = (pos k ≤ℤ a.ack_num) ⊎ Acked k run
  Acked k (keep_alive state since now ok run) = Acked k run
  Acked k (closing now ok run) = Acked k run
  Acked k (share flow consumed run) = Acked k run
  Acked k (acknowledge j ack ok run neg idle) = Acked k run
  Acked k (connect_out j cr syn ok run neg idle) = Acked k run
  Acked k (arrive i p now wall taken r run at e) = Acked k run
  Acked k (retry now clk r run e) = Acked k run
  Acked k (connect_in cr run) = Acked k run
  Acked k (consume now run) = Acked k run
  Acked k (read rr now run) = Acked k run

  -- Each first send finds its entry of `Txq` in neither tree: no more packets are under way than there
  -- are entries. The code does not see to it.
  abbrev pub FitsTxq : {n : ℕ} {u : World x} → Run x w n u → Type 0
  FitsTxq
        (start window timeout inbox dest interval failed nonce now bytes inbox' dest' nonce' snd) =
      Unit
  FitsTxq (push {u = u} p now ok run open_) = EntryFree x u.sender × FitsTxq run
  FitsTxq (wake now clk ok s run e) = FitsTxq run
  FitsTxq (hear_pack a now s run e) = FitsTxq run
  FitsTxq (keep_alive state since now ok run) = FitsTxq run
  FitsTxq (closing now ok run) = FitsTxq run
  FitsTxq (share flow consumed run) = FitsTxq run
  FitsTxq (acknowledge j ack ok run neg idle) = FitsTxq run
  FitsTxq (connect_out j cr syn ok run neg idle) = FitsTxq run
  FitsTxq (arrive i p now wall taken r run at e) = FitsTxq run
  FitsTxq (retry now clk r run e) = FitsTxq run
  FitsTxq (connect_in cr run) = FitsTxq run
  FitsTxq (consume now run) = FitsTxq run
  FitsTxq (read rr now run) = FitsTxq run
