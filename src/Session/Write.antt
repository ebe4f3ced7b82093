-- ===== src/Session/Write.antt =====
-- swp.go: what `Write` pushes is what it was given, in pieces that fit the window.
use native.Mathlib.Nat.{div-add-mod', mod-lt}
use go_sliding_window.Base.{
  ℕ, zero, suc, ◌+◌, ◌-◌, ◌*◌, ◌/◌, ◌^◌, ◌≢◌, dec_lt, ◌%◌, min, ◌≤◌, ◌<◌, ◌≡◌, refl, sym, ◌∙◌, ap,
  ◌⊎◌, inl, inr, true, false, none, some, List, [], ◌∷◌, ◌++◌, All, String, length, take, drop, ltb,
  take-append-drop, drop-drop, length-take, length-drop, arith, if◌then◌else◌,
}
use go_sliding_window.Base.Int.{ℤ, pos, negsuc, ◌≤ℤ◌, ltb_ℤ, mul_64, mul_64_pos}
use go_sliding_window.Packet.{Packet}
use go_sliding_window.Session.{
  settle, settled, or_default, SessionConfig, piece_size, int64_min, piece_count, piece, pieces,
  write_packets,
}

All-short :
    (n m : ℕ) (ps : List Packet)
    → n ≤ m
    → All (λ (p : Packet). length p.payload ≤ n) ps
    → All (λ (p : Packet). length p.payload ≤ m) ps
All-short n m [] le h = tt
All-short n m (p ∷ ps) le h = (omega (arith, h.0), All-short n m ps le h.1)

-- The bytes that the packets carry, one after the other.
unfoldable pub bytes_of : List Packet → List ℕ
bytes_of [] = []
bytes_of (p ∷ ps) = p.payload ++ bytes_of ps

take-min :
    {A : Type 0} (n m : ℕ) (xs : List A)
    → (n ≡ m) ⊎ ((length xs ≤ n) × (length xs ≤ m))
    → take n xs ≡ take m xs
take-min n m xs (inl e) = ap (λ k. take k xs) e
take-min zero zero [] (inr h) = refl
take-min zero (suc m) [] (inr h) = refl
take-min (suc n) zero [] (inr h) = refl
take-min (suc n) (suc m) [] (inr h) = refl
take-min zero m (y ∷ xs) (inr h) = absurd (omega arith)
take-min (suc n) zero (y ∷ xs) (inr h) = absurd (omega arith)
take-min (suc n) (suc m) (y ∷ xs) (inr h) =
    ap (λ ys. y ∷ ys) (take-min n m xs (inr (omega arith, omega arith)))

drop_all : {A : Type 0} (n : ℕ) (xs : List A) → length xs ≤ n → drop n xs ≡ []
drop_all zero [] h = refl
drop_all (suc n) [] h = refl
drop_all zero (y ∷ xs) h = absurd (omega arith)
drop_all (suc n) (y ∷ xs) h = drop_all n xs (omega arith)

-- A piece and what follows it are what was left before it.
piece_cut :
    (payload : List ℕ) (a sz : ℕ)
    → take (min (a + sz) (length payload) - a) (drop a payload) ++ drop (a + sz) payload
      ≡ drop a payload
piece_cut payload a sz =
    rw
      (
        sym (drop-drop sz a payload),
        take-min (min (a + sz) (length payload) - a) sz (drop a payload) same,
      )
      (take-append-drop sz (drop a payload))
  where
    same :
        (min (a + sz) (length payload) - a ≡ sz)
        ⊎ ((length (drop a payload) ≤ min (a + sz) (length payload) - a)
            × (length (drop a payload) ≤ sz))
    same = ground (arith, length-drop a payload)

pieces-bytes :
    (left : ℕ) (inbox dest : String) (payload : List ℕ) (sz i ack account : ℕ)
    → length payload ≤ (i + left) * sz
    → bytes_of (pieces left inbox dest payload sz i ack account) ≡ drop (i * sz) payload
unfolding bytes_of pieces piece
pieces-bytes zero inbox dest payload sz i ack account h =
    sym (drop_all (i * sz) payload (omega arith))
pieces-bytes (suc left) inbox dest payload sz i ack account h =
    let next : suc i * sz ≡ i * sz + sz = omega arith in
    rw (pieces-bytes left inbox dest payload sz (suc i) ack account (omega arith), next)
      (piece_cut payload (i * sz) sz)

piece_count-covers : (len sz : ℕ) → 0 < sz → len ≤ piece_count len sz * sz
unfolding piece_count
piece_count-covers len sz h =
    let q = len / sz in
    let next : suc q * sz ≡ q * sz + sz = omega arith in
    let whole = div-add-mod' len sz in
    let part : len % sz < sz = mod-lt len h in
    elim (dec_lt 0 (len - q * sz)) [
      | yes lt ↦
          let t : ltb 0 (len - q * sz) ≡ true = ground arith in
          rw (t, next) (omega (arith, whole, part))
      | no ge ↦ let t : ltb 0 (len - q * sz) ≡ false = ground arith in rw t (omega (arith, whole))
    ]

-- The pieces are no longer than `sz`.
pieces-All :
    (left : ℕ) (inbox dest : String) (payload : List ℕ) (sz i ack account : ℕ)
    → All (λ (p : Packet). length p.payload ≤ sz) (pieces left inbox dest payload sz i ack account)
unfolding pieces piece
pieces-All zero inbox dest payload sz i ack account = tt
pieces-All (suc left) inbox dest payload sz i ack account =
    let next : suc i * sz ≡ i * sz + sz = omega arith in
    (
      omega (
        arith,
        length-take (min (suc i * sz) (length payload) - i * sz) (drop (i * sz) payload),
        next,
      ),
      pieces-All left inbox dest payload sz (suc i) ack account,
    )

write_pieces :
    (inbox dest : String) (bytes : ℤ) (payload : List ℕ) (sz ack account : ℕ)
    → piece_size bytes ≡ pos (suc sz)
    → 0 < length payload
    → write_packets inbox dest bytes payload ack account
      ≡ some
          (pieces (piece_count (length payload) (suc sz)) inbox dest payload (suc sz) 0 ack account)
unfolding write_packets
write_pieces inbox dest bytes payload sz ack account e h = ground arith

piece_size-pos :
    (w : ℕ)
    → (sz : ℕ) × (piece_size (pos (suc w)) ≡ pos (suc sz)) × (suc sz ≤ suc w) × (suc sz ≤ 524288)
unfolding piece_size int64_min
piece_size-pos w = elim (dec_lt (suc w) 524288) [
  | yes lt ↦ (w, ground arith, omega arith, omega arith)
  | no ge ↦ (524287, ground arith, omega arith, omega arith)
]

-- With a byte window of at least one, which `NewSession` sees to, a `Write` cuts its bytes into
-- packets whose contents, one after the other, are those bytes, none longer than the window or than
-- 512 KB.
pub write_packets-bytes :
    (inbox dest : String) (w : ℕ) (payload : List ℕ) (ack account : ℕ)
    → (ps : List Packet) × (write_packets inbox dest (pos (suc w)) payload ack account ≡ some ps)
      × (bytes_of ps ≡ payload)
      × All (λ (p : Packet). length p.payload ≤ suc w) ps
      × All (λ (p : Packet). length p.payload ≤ 524288) ps
unfolding write_packets bytes_of
write_packets-bytes inbox dest w [] ack account = ([], refl, refl, tt, tt)
write_packets-bytes inbox dest w (b ∷ bs) ack account =
    let (sz, e, le, small) = piece_size-pos w in
    let n = piece_count (length (b ∷ bs)) (suc sz) in
    let none_before : 0 * suc sz ≡ 0 = omega arith in
    let short = pieces-All n inbox dest (b ∷ bs) (suc sz) 0 ack account in
    (
      _,
      write_pieces inbox dest (pos (suc w)) (b ∷ bs) sz ack account e (omega arith),
      pieces-bytes n inbox dest (b ∷ bs) (suc sz) 0 ack account
            (omega (arith, piece_count-covers (length (b ∷ bs)) (suc sz) (omega arith)))
          ∙ ap (λ k. drop k (b ∷ bs)) none_before,
      All-short (suc sz) (suc w) _ le short,
      All-short (suc sz) 524288 _ small short,
    )

ℤ-cases : (a : ℤ) → ((n : ℕ) × (a ≡ pos n)) ⊎ ((n : ℕ) × (a ≡ negsuc n))
ℤ-cases (pos n) = inl (n, refl)
ℤ-cases (negsuc n) = inr (n, refl)

or_default-ne : (a : ℤ) (d : ℕ) → or_default a (pos (suc d)) ≢ pos 0
or_default-ne a d = ground arith

-- A given byte window that is no smaller than the message window, or else 10 KB a message.
bytes_positive :
    (cfg : SessionConfig) (n : ℕ)
    → cfg.window_msg_count ≡ pos (suc n)
    → suc n < 2 ^ 49
    → ltb_ℤ (pos 0) (
        if ltb_ℤ cfg.window_byte_sz cfg.window_msg_count
        then mul_64 (mul_64 cfg.window_msg_count (pos 10)) (pos 1024)
        else cfg.window_byte_sz)
      ≡ true
bytes_positive cfg n e h =
    let ten = mul_64_pos (suc n) 10 (omega arith) in
    let kb = mul_64_pos (suc n * 10) 1024 (omega arith) in rw (e, ten, kb) (ground arith)

-- Of the windows of fewer than 2^49 messages, negative ones included, `NewSession` refuses exactly those
-- of fewer than one message; and for the others what it settles on has the same window, a byte window of
-- at least one, and a keep-alive interval and a number of keep-alives that are not zero.
pub settle-Usable :
    (cfg : SessionConfig)
    → cfg.window_msg_count ≤ℤ pos (2 ^ 49 - 1)
    → ((cfg.window_msg_count ≤ℤ pos 0) × (settle cfg ≡ none))
      ⊎ ((pos 1 ≤ℤ cfg.window_msg_count)
          × ((out : SessionConfig) × (settle cfg ≡ some out)
              × (out.window_msg_count ≡ cfg.window_msg_count)
              × (ltb_ℤ (pos 0) out.window_byte_sz ≡ true)
              × (out.keep_alive_interval ≢ pos 0)
              × (out.num_failed_keep_alives_before_closing ≢ pos 0)))
unfolding settle
settle-Usable cfg h = elim (ℤ-cases cfg.window_msg_count) [
  | inl (zero, e) ↦
      let few : ltb_ℤ cfg.window_msg_count (pos 1) ≡ true = rw e (ground arith) in
      inl (rw e (omega arith), rw few refl)
  | inl (suc n, e) ↦
      let enough : ltb_ℤ cfg.window_msg_count (pos 1) ≡ false = rw e (ground arith) in
      let small = rw e at h in
      inr (
        rw e (omega arith),
        (
          settled cfg,
          rw enough refl,
          refl,
          bytes_positive cfg n e (omega (arith, small)),
          or_default-ne cfg.keep_alive_interval 499_999_999,
          or_default-ne cfg.num_failed_keep_alives_before_closing 49,
        ),
      )
  | inr (n, e) ↦
      let few : ltb_ℤ cfg.window_msg_count (pos 1) ≡ true = rw e (ground arith) in
      inl (rw e (omega arith), rw few refl)
]
