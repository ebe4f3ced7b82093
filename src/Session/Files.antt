-- ===== src/Session/Files.antt =====
-- swp.go: files that are sent arrive, and what arrives damaged is reported.
use go_sliding_window.Base.{
  ℕ, ◌≡◌, ◌≢◌, ◌<◌, ◌↔◌, refl, ◌∙◌, ap, Bool, true, false, none, some, List, [], ◌∷◌, String,
  length, bytes_eq, bytes_eq_self, bytes_eq-true, arith, not, ◌==◌, if◌then◌else◌,
}
use go_sliding_window.Base.Int.{pos, eq_ℤ, eq_ℤ-true, eq_ℤ_self}
use go_sliding_window.Packet.{Time}
use go_sliding_window.Session.{
  BigFile, wrong_size, no_checksum, wrong_checksum, decoding, recv_file, send_file,
}

-- The checks of `recv_file`, one after the other.
checks_iff :
    (size empty sum ok : Bool)
    → ((if not size
          then some wrong_size
          else (if empty
              then some no_checksum
              else (if not sum then some wrong_checksum else (if ok then none else some decoding))))
        ≡ none)
      ↔ ((size ≡ true) × (empty ≡ false) × (sum ≡ true) × (ok ≡ true))
checks_iff size empty sum ok = ground arith

length-ne : (xs : List ℕ) → (length xs == 0) ≡ false → xs ≢ []
length-ne [] h e = absurd (cc)
length-ne (x ∷ xs) h e = absurd (cc)

ne-length : (xs : List ℕ) → xs ≢ [] → (length xs == 0) ≡ false
ne-length [] h = absurd (h refl)
ne-length (x ∷ xs) h = ground arith

module _ (blake2b : List ℕ → List ℕ) (encode : BigFile → List ℕ)
    (decode : List ℕ → BigFile × Bool) where
  -- If the decoder reads back the file that the encoder wrote, and the hash is not empty, the file
  -- that is received from the bytes of a sent one is that file, without an error.
  pub recv_file-send_file :
      (path : String) (writeme : List ℕ) (tm : Time)
      → 0 < length (blake2b writeme)
      → decode (send_file blake2b encode path writeme tm).1
        ≡ ((send_file blake2b encode path writeme tm).0, true)
      → recv_file blake2b decode (send_file blake2b encode path writeme tm).1
        ≡ ((send_file blake2b encode path writeme tm).0, none)
  unfolding recv_file send_file
  recv_file-send_file path writeme tm h back =
      let same : eq_ℤ (pos (length writeme)) (pos (length writeme)) ≡ true = ground arith in
      let some_hash : (length (blake2b writeme) == 0) ≡ false = ground arith in
      rw (back, same, some_hash, bytes_eq_self) refl

  -- A file is received without an error exactly when it could be decoded, its size is the length of
  -- its contents, and its checksum is there and is the hash of its contents.
  pub recv_file_iff :
      (bytes : List ℕ)
      → ((recv_file blake2b decode bytes).1 ≡ none) ↔ (
          ((decode bytes).1 ≡ true)
          × ((decode bytes).0.size_in_bytes ≡ pos (length (decode bytes).0.content))
          × ((decode bytes).0.blake2b_of ≢ [])
          × ((decode bytes).0.blake2b_of ≡ blake2b (decode bytes).0.content))
  unfolding recv_file
  recv_file_iff bytes =
      let bf = (decode bytes).0 in
      let size = eq_ℤ bf.size_in_bytes (pos (length bf.content)) in
      let sum = bytes_eq bf.blake2b_of (blake2b bf.content) in
      let tests = checks_iff size (length bf.blake2b_of == 0) sum (decode bytes).1 in
      (
        λ h.
            let (a, b, c, d) = tests.0 h in
            (d, eq_ℤ-true _ _ a, length-ne bf.blake2b_of b, bytes_eq-true _ _ c),
        λ (d, a, b, c).
            let size_ok : size ≡ true =
              ap (λ n. eq_ℤ n (pos (length bf.content))) a ∙ eq_ℤ_self (pos (length bf.content)) in
            let sum_ok : sum ≡ true =
              ap (λ ys. bytes_eq ys (blake2b bf.content)) c ∙ bytes_eq_self (blake2b bf.content) in
            tests.1 (size_ok, ne-length bf.blake2b_of b, sum_ok, d),
      )
