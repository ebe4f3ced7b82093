-- ===== src/Retree.antt =====
-- retree.go: the two comparisons of the retry trees, and the deletion of a prefix.
pub mod Prefix
use go_sliding_window.Base.{ℕ, ◌≡◌, Bool, true, false, List, [], ◌∷◌, if◌then◌else◌}
use go_sliding_window.Base.Int.{ℤ, pos, wrap_64, sub_64, eq_ℤ, ltb_ℤ, leb_ℤ}
use go_sliding_window.Packet.{TxqSlot, Time}
use go_sliding_window.Externals.{Externals}

-- `UnixNano` of a time is an `int64`.
unfoldable pub unix_nano : Time → ℤ
unfolding wrap_64
unix_nano t = wrap_64 t

unfoldable pub compare_seq_num : TxqSlot → TxqSlot → ℤ
compare_seq_num a b = sub_64 a.pack.seq_num b.pack.seq_num

unfoldable pub compare_retry_deadline : TxqSlot → TxqSlot → ℤ
unfolding unix_nano
compare_retry_deadline a b =
    let at = unix_nano a.retry_deadline in
    let bt = unix_nano b.retry_deadline in
    if eq_ℤ at bt then sub_64 a.pack.seq_num b.pack.seq_num else sub_64 at bt

module _ (x : Externals) where
  open x use {Tree, items, delete_min}

  -- The loop over the iterator: the items from `Min` on are deleted while they pass the test. The
  -- tree left over, and the items that the callback was called with, in order.
  unfoldable pub delete_while : (TxqSlot → Bool) → List TxqSlot → Tree → Tree × List TxqSlot
  delete_while test [] t = (t, [])
  delete_while test (cur ∷ next) t =
      let rest = delete_while test next (delete_min t) in
      if test cur then (rest.0, cur ∷ rest.1) else (t, [])

  unfoldable pub delete_through_deadline : Time → Tree → Tree × List TxqSlot
  unfolding delete_while
  delete_through_deadline now t = delete_while (λ cur. leb_ℤ cur.retry_deadline now) (items t) t

  unfoldable pub delete_through_seq_num : ℤ → Tree → Tree × List TxqSlot
  unfolding delete_while
  delete_through_seq_num seqnum t = delete_while (λ cur. leb_ℤ cur.pack.seq_num seqnum) (items t) t
