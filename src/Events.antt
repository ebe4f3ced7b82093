-- ===== src/Events.antt =====
-- overing.go: EventRingBuf, a ring of times, as a ring of the last N events and as a queue. An index stays below twice the length of
-- the slice, so that Go's `int` does not wrap.
pub mod Recent
pub mod Slices
pub mod Queue
pub mod Written
pub mod Loop
pub mod Reading
pub mod Advance
use go_sliding_window.Base.{
  ℕ, suc, ◌+◌, ◌-◌, ◌%◌, Bool, true, false, Option, none, some, List, [], ◌∷◌, ◌++◌, zero, min,
  length, get_or, set, take, drop, replicate, ltb, leb, ◌==◌, if◌then◌else◌,
}
use go_sliding_window.Base.Int.{ℤ, pos, negsuc, leb_ℤ}
use go_sliding_window.Packet.{Time, Duration, time_sub}

pub record EventRingBuf : Type 0 where
  pub a : List Time
  pub n : ℕ
  pub window : Duration
  pub beg : ℕ
  pub readable : ℕ

unfoldable pub new_event_ring_buf : ℕ → Duration → EventRingBuf
new_event_ring_buf n w = record {
  a = replicate n (pos 0);
  n = n;
  window = w;
  beg = 0;
  readable = 0;
}

-- The event goes behind the readable ones, over the oldest if the ring is full.
unfoldable pub put_event : EventRingBuf → Time → EventRingBuf
put_event b e =
    let written = set b.a ((b.beg + b.readable) % b.n) e in
    if b.n - b.readable == 0
    then record b { a = written; beg = (b.beg + 1) % b.n }
    else record b { a = written; readable = suc b.readable }

-- In a full ring: whether the newest event came within the window after the oldest.
unfoldable pub within_window : EventRingBuf → ℕ → Bool
within_window b youngest =
    if ltb 0 (b.n - b.readable)
    then false
    else leb_ℤ (time_sub (get_or b.a youngest (pos 0)) (get_or b.a b.beg (pos 0))) b.window

-- `AddEventCheckOverflow`. A ring of no events is a division by zero, a panic: `none`.
unfoldable pub add_event_check_overflow : EventRingBuf → Time → Option (EventRingBuf × Bool)
unfolding put_event within_window
add_event_check_overflow b e =
    if b.n == 0
    then none
    else (let b' = put_event b e in some (b', within_window b' ((b.beg + b.readable) % b.n)))

-- `TwoContig`: the events in the ring, oldest first, in two slices of it.
unfoldable pub two_contig : EventRingBuf → List Time × List Time
two_contig b =
    let extent = b.beg + b.readable in
    if leb extent b.n
    then (take b.readable (drop b.beg b.a), [])
    else (take (b.n - b.beg) (drop b.beg b.a), take (extent % b.n) b.a)

-- `copy(dst[start:], src)`, for `k` elements.
unfoldable pub copy_at {ℓ} : {A : Type ℓ} → List A → ℕ → ℕ → List A → List A
copy_at dst start k src = take start dst ++ (take k src ++ drop (start + k) dst)

abbrev pub drop_oldest : ℕ → EventRingBuf → EventRingBuf
drop_oldest m b = record b { readable = b.readable - m; beg = (b.beg + m) % b.n }

-- `Advance`.
unfoldable pub advance_ring : ℤ → EventRingBuf → EventRingBuf
advance_ring (negsuc k) b = b
advance_ring (pos zero) b = b
advance_ring (pos (suc k)) b =
    if ltb b.readable (suc k) then drop_oldest b.readable b else drop_oldest (suc k) b

-- What a read gives: how many, whether the error is `io.EOF`, the slice it has filled, and the ring.
pub record RingRead : Type 0 where
  pub count : ℕ
  pub eof : Bool
  pub filled : List Time
  pub ring : EventRingBuf

-- The copies of a read, and how many were copied.
unfoldable pub copy_events : List Time → EventRingBuf → ℕ × List Time
unfolding copy_at
copy_events p b =
    let extent = b.beg + b.readable in
    let n1 = min (length p) (b.n - b.beg) in
    let p1 = copy_at p 0 n1 (take (b.n - b.beg) (drop b.beg b.a)) in
    let n2 = min (length p - n1) (extent % b.n) in
    if leb extent b.n
    then (
      min (length p) b.readable,
      copy_at p 0 (min (length p) b.readable) (take b.readable (drop b.beg b.a)),
    )
    else (if ltb n1 (length p)
        then (n1 + n2, copy_at p1 n1 n2 (take (extent % b.n) b.a))
        else (n1, p1))

abbrev pub after_copy : Bool → EventRingBuf → ℕ × List Time → RingRead
after_copy do_advance b (n, p) = record {
  count = n;
  eof = false;
  filled = p;
  ring = if do_advance then advance_ring (pos n) b else b;
}

-- `readAndMaybeAdvance`: `ReadPtrs` advances, `ReadWithoutAdvance` does not.
unfoldable pub read_and_maybe_advance : Bool → List Time → EventRingBuf → RingRead
unfolding copy_events
read_and_maybe_advance do_advance p b =
    if length p == 0
    then record { count = 0; eof = false; filled = p; ring = b }
    else (if b.readable == 0
        then record { count = 0; eof = true; filled = p; ring = b }
        else after_copy do_advance b (copy_events p b))

-- What a write gives: how many, whether the error is `io.ErrShortWrite`, and the ring.
pub record RingWrite : Type 0 where
  pub written : ℕ
  pub short : Bool
  pub ring_after : EventRingBuf

-- One round of `WritePtrs`: the elements that fit before the end of the slice.
unfoldable pub round_size : List Time → EventRingBuf → ℕ
round_size p b =
    let start = (b.beg + b.readable) % b.n in
    min (min (start + (b.n - b.readable)) b.n - start) (length p)

unfoldable pub write_round : List Time → EventRingBuf → EventRingBuf
unfolding copy_at round_size
write_round p b = record b {
  a = copy_at b.a ((b.beg + b.readable) % b.n) (round_size p b) p;
  readable = b.readable + round_size p b;
}

-- The loop of `WritePtrs` on fuel. `n` and `err` are its results so far.
unfoldable pub write_loop : ℕ → ℕ → Bool → List Time → EventRingBuf → Option RingWrite
unfolding write_round
write_loop zero n err p b = none
write_loop (suc fuel) n err p b =
    let more =
      write_loop fuel (n + round_size p b) (if ltb (b.n - b.readable) (length p) then true else err)
        (drop (round_size p b) p) (write_round p b) in
    if length p == 0
    then some (record { written = n; short = err; ring_after = b })
    else (if b.n - b.readable == 0
        then some (record { written = n; short = true; ring_after = b })
        else more)

-- `WritePtrs`: at most two rounds, and the one that ends it.
unfoldable pub write_ptrs : List Time → EventRingBuf → Option RingWrite
unfolding write_loop
write_ptrs p b = write_loop 3 0 false p b

-- `Reset` and `Adopt`.
unfoldable pub reset : EventRingBuf → EventRingBuf
reset b = record b { beg = 0; readable = 0 }

unfoldable pub adopt : List Time → EventRingBuf → EventRingBuf
unfolding copy_at
adopt me b =
    if ltb b.n (length me)
    then record b { a = me; n = length me; beg = 0; readable = length me }
    else record b { a = copy_at b.a 0 (length me) me; beg = 0; readable = length me }
