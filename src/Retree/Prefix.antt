-- ===== src/Retree/Prefix.antt =====
-- retree.go: what a deletion of a prefix leaves, and what it hands to the callback.
use go_sliding_window.Base.{
  ◌+◌, inl, inr, ◌≡◌, ◌<◌, refl, sym, ◌∙◌, ap, Bool, true, false, Bool-cases, List, [], ◌∷◌, ◌++◌,
  All, arith, subst,
}
use go_sliding_window.Base.Int.{ℤ, leb_ℤ, ◌≤ℤ◌, pos_part, neg_part}
use go_sliding_window.Packet.{TxqSlot}
use go_sliding_window.Externals.{Externals, TreeLaws, tail_of}
use go_sliding_window.Retree.{delete_while, delete_through_seq_num}

-- Sequence numbers grow along the list.
abbrev pub Above : ℤ → List TxqSlot → Type 0
Above b [] = Unit {0}
Above b (s ∷ ss) =
    (pos_part b + neg_part s.pack.seq_num < pos_part s.pack.seq_num + neg_part b)
    × Above s.pack.seq_num ss

module _ (x : Externals) (laws : TreeLaws x) where
  open x use {Tree, items, delete_min}
  open laws use {items-delete_min}

  -- The items split into a prefix that passes the test, which the callback gets in order, and the
  -- rest, which begins with an item that fails the test.
  pub record Split (test : TxqSlot → Bool) (l : List TxqSlot) (out : Tree × List TxqSlot)
      : Type 0 where
    pub splits : l ≡ out.1 ++ items out.0
    pub passed : All (λ s. test s ≡ true) out.1
    pub stops : (s : TxqSlot) (ss : List TxqSlot) → items out.0 ≡ s ∷ ss → test s ≡ false

  pub delete_while-Split :
      (test : TxqSlot → Bool) (l : List TxqSlot) (t : Tree)
      → items t ≡ l
      → Split test l (delete_while x test l t)
  unfolding delete_while
  delete_while-Split test [] t e = record { splits = sym e; passed = tt; stops = λ s ss q. cc }
  delete_while-Split test (cur ∷ next) t e =
      let tail : items (delete_min t) ≡ next = items-delete_min t ∙ ap tail_of e in
      let rest = delete_while-Split test next (delete_min t) tail in
      elim (Bool-cases (test cur)) [
        | inl h ↦ rw h (record {
          splits = ap (λ r. cur ∷ r) rest.splits;
          passed = (h, rest.passed);
          stops = rest.stops;
        })
        | inr h ↦ rw h (record {
          splits = sym e;
          passed = tt;
          stops = λ s ss q. let same : cur ≡ s = cc in subst (λ c. test c ≡ false) same h;
        })
      ]

abbrev pub Beyond : ℤ → TxqSlot → Type 0
Beyond n s = pos_part n + neg_part s.pack.seq_num < pos_part s.pack.seq_num + neg_part n

abbrev pub Through : ℤ → TxqSlot → Type 0
Through n s = s.pack.seq_num ≤ℤ n

Above-Beyond : (n b : ℤ) (ss : List TxqSlot) → n ≤ℤ b → Above b ss → All (Beyond n) ss
Above-Beyond n b [] h a = tt
Above-Beyond n b (s ∷ ss) h a = (omega arith, Above-Beyond n s.pack.seq_num ss (omega arith) a.1)

pub Above-append_right :
    (b : ℤ) (xs ys : List TxqSlot) → Above b (xs ++ ys) → (c : ℤ) × (b ≤ℤ c) × Above c ys
Above-append_right b [] ys h = (b, omega arith, h)
Above-append_right b (x ∷ xs) ys h =
    let (c, le, a) = Above-append_right x.pack.seq_num xs ys h.1 in (c, omega arith, a)

rest-Beyond :
    (n b : ℤ) (l : List TxqSlot)
    → Above b l
    → ((s : TxqSlot) (ss : List TxqSlot) → l ≡ s ∷ ss → leb_ℤ s.pack.seq_num n ≡ false)
    → All (Beyond n) l
rest-Beyond n b [] a h = tt
rest-Beyond n b (s ∷ ss) a h =
    let no = h s ss refl in
    let first : Beyond n s = ground (arith, no) in
    (first, Above-Beyond n s.pack.seq_num ss (omega arith) a.1)

passed-Through :
    (n : ℤ) (l : List TxqSlot) → All (λ s. leb_ℤ s.pack.seq_num n ≡ true) l → All (Through n) l
passed-Through n [] h = tt
passed-Through n (s ∷ ss) h = (ground (arith, h.0), passed-Through n ss h.1)

module _ (x : Externals) (laws : TreeLaws x) where
  open x use {Tree, items}

  -- A cumulative acknowledgement: of a tree in the order of its sequence numbers exactly those up to
  -- `n` are deleted and handed to the callback, oldest first, and the later ones are left as they were.
  pub delete_seq_num_exact :
      (n b : ℤ) (t : Tree)
      → Above b (items t)
      → let (t', gone) = delete_through_seq_num x n t in
        (items t ≡ gone ++ items t') × All (Through n) gone × All (Beyond n) (items t')
  unfolding delete_through_seq_num
  delete_seq_num_exact n b t a =
      let s = delete_while-Split x laws (λ cur. leb_ℤ cur.pack.seq_num n) (items t) t refl in
      let out = delete_while x (λ cur. leb_ℤ cur.pack.seq_num n) (items t) t in
      let (c, le, r) = Above-append_right b out.1 (items out.0) (subst (Above b) s.splits a) in
      (s.splits, passed-Through n out.1 s.passed, rest-Beyond n c (items out.0) r s.stops)
