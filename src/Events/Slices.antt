-- ===== src/Events/Slices.antt =====
-- overing.go: what stands in a slice after a copy into it.
use go_sliding_window.Base.{
  ℕ, zero, suc, ◌+◌, ◌-◌, ◌<◌, ◌≤◌, ◌≡◌, refl, sym, ◌∙◌, ap, List, [], ◌∷◌, ◌++◌, length,
  length-append, length-take, length-drop, take, drop, get_or, arith,
}
use go_sliding_window.Events.{copy_at}

module _ {ℓ} {A : Type ℓ} where
  pub get_or-append_left :
      (xs ys : List A) (i : ℕ) (d : A) → i < length xs → get_or (xs ++ ys) i d ≡ get_or xs i d
  get_or-append_left [] ys i d h = absurd (omega arith)
  get_or-append_left (x ∷ xs) ys zero d h = refl
  get_or-append_left (x ∷ xs) ys (suc i) d h = get_or-append_left xs ys i d (omega arith)

  pub get_or-append_right :
      (xs ys : List A) (i : ℕ) (d : A)
      → length xs ≤ i
      → get_or (xs ++ ys) i d ≡ get_or ys (i - length xs) d
  get_or-append_right [] ys i d h = ap (λ j. get_or ys j d) (omega arith)
  get_or-append_right (x ∷ xs) ys zero d h = absurd (omega arith)
  get_or-append_right (x ∷ xs) ys (suc i) d h =
      let eq : i - length xs ≡ suc i - suc (length xs) = omega arith in
      get_or-append_right xs ys i d (omega arith) ∙ ap (λ j. get_or ys j d) eq

  pub get_or-take :
      (n : ℕ) (xs : List A) (i : ℕ) (d : A) → i < n → get_or (take n xs) i d ≡ get_or xs i d
  get_or-take zero xs i d h = absurd (omega arith)
  get_or-take (suc n) [] i d h = refl
  get_or-take (suc n) (x ∷ xs) zero d h = refl
  get_or-take (suc n) (x ∷ xs) (suc i) d h = get_or-take n xs i d (omega arith)

  pub get_or-drop :
      (n : ℕ) (xs : List A) (i : ℕ) (d : A) → get_or (drop n xs) i d ≡ get_or xs (n + i) d
  get_or-drop zero xs i d = ap (λ j. get_or xs j d) (omega arith)
  get_or-drop (suc n) [] i d = refl
  get_or-drop (suc n) (x ∷ xs) i d =
      let eq : suc n + i ≡ suc (n + i) = omega arith in
      get_or-drop n xs i d ∙ sym (ap (λ j. get_or (x ∷ xs) j d) eq)

  -- Lists of one length with the same elements are equal.
  pub get_or-ext :
      (xs ys : List A) (d : A)
      → length xs ≡ length ys
      → ((i : ℕ) → i < length xs → get_or xs i d ≡ get_or ys i d)
      → xs ≡ ys
  get_or-ext [] [] d h f = refl
  get_or-ext [] (y ∷ ys) d h f = absurd (omega (arith, h))
  get_or-ext (x ∷ xs) [] d h f = absurd (omega (arith, h))
  get_or-ext (x ∷ xs) (y ∷ ys) d h f =
      let heads : x ≡ y = f 0 (omega arith) in
      let tails = get_or-ext xs ys d (omega (arith, h)) (λ i lt. f (suc i) (omega (arith, lt))) in
      rw (heads, tails) refl

  module _ (dst : List A) (s k : ℕ) (src : List A) (d : A) (fits : s + k ≤ length dst)
      (given : k ≤ length src) where
    pub length-copy_at : length (copy_at dst s k src) ≡ length dst
    unfolding copy_at
    length-copy_at = omega (
      arith,
      fits,
      given,
      length-append (take s dst) (take k src ++ drop (s + k) dst),
      length-append (take k src) (drop (s + k) dst),
      length-take s dst,
      length-take k src,
      length-drop (s + k) dst,
    )

    pub copy_at-before : (i : ℕ) → i < s → get_or (copy_at dst s k src) i d ≡ get_or dst i d
    unfolding copy_at
    copy_at-before i h =
        get_or-append_left (take s dst) _ i d (omega (arith, h, fits, length-take s dst))
        ∙ get_or-take s dst i d h

    behind :
        (i : ℕ)
        → s ≤ i
        → get_or (copy_at dst s k src) i d ≡ get_or (take k src ++ drop (s + k) dst) (i - s) d
    unfolding copy_at
    behind i h =
        let whole : length (take s dst) ≡ s = omega (arith, fits, length-take s dst) in
        get_or-append_right (take s dst) _ i d (omega (arith, h, whole))
        ∙ ap (λ j. get_or (take k src ++ drop (s + k) dst) j d) (omega (arith, whole))

    pub copy_at-inside :
        (i : ℕ) → s ≤ i → i < s + k → get_or (copy_at dst s k src) i d ≡ get_or src (i - s) d
    copy_at-inside i h lt =
        behind i h
        ∙ get_or-append_left (take k src) _ (i - s) d
            (omega (arith, h, lt, given, length-take k src))
        ∙ get_or-take k src (i - s) d (omega (arith, h, lt))

    pub copy_at-after : (i : ℕ) → s + k ≤ i → get_or (copy_at dst s k src) i d ≡ get_or dst i d
    copy_at-after i h =
        let whole : length (take k src) ≡ k = omega (arith, given, length-take k src) in
        behind i (omega (arith, h))
        ∙ get_or-append_right (take k src) _ (i - s) d (omega (arith, h, whole))
        ∙ get_or-drop (s + k) dst (i - s - length (take k src)) d
        ∙ ap (λ j. get_or dst j d) (omega (arith, h, whole))
