-- ===== src/Externals/Lists.antt =====
-- A tree that is a sorted list with its comparison: it shows that the laws can be met, and the
-- tests run with it. Its floats are integers.
use go_sliding_window.Base.{ℕ, ◌≡◌, refl, ◌∙◌, ap, List, [], ◌∷◌, All, if◌then◌else◌, length, arith}
use go_sliding_window.Base.Int.{ℤ, pos, ltb_ℤ, add_64, sub_64, mul_64, quot_64}
use go_sliding_window.Packet.{TxqSlot}
use go_sliding_window.Externals.{
  Externals, Compare, Agrees, map_slots, insert_by, erase_by, tail_of, TreeLaws,
}

pub record ListTree : Type 0 where
  pub compare : Compare
  pub content : List TxqSlot

unfoldable pub insert_cmp : Compare → TxqSlot → List TxqSlot → List TxqSlot
insert_cmp cmp x [] = x ∷ []
insert_cmp cmp x (y ∷ ys) =
    if ltb_ℤ (cmp x y) (pos 0)
    then x ∷ y ∷ ys
    else (if ltb_ℤ (pos 0) (cmp x y) then y ∷ insert_cmp cmp x ys else y ∷ ys)

unfoldable pub erase_cmp : Compare → TxqSlot → List TxqSlot → List TxqSlot
erase_cmp cmp x [] = []
erase_cmp cmp x (y ∷ ys) =
    if ltb_ℤ (cmp x y) (pos 0)
    then y ∷ erase_cmp cmp x ys
    else (if ltb_ℤ (pos 0) (cmp x y) then y ∷ erase_cmp cmp x ys else ys)

abbrev pub list_externals : Externals
list_externals = record {
  Tree = ListTree;
  new_tree = λ cmp. record { compare = cmp; content = [] };
  insert = λ s t. record t { content = insert_cmp t.compare s t.content };
  delete_with_key = λ s t. record t { content = erase_cmp t.compare s t.content };
  delete_min = λ t. record t { content = tail_of t.content };
  items = λ t. t.content;
  map_items = λ f t. record t { content = map_slots f t.content };
  len = λ t. length t.content;
  blake2b = λ bytes. length bytes ∷ [];
  Float = ℤ;
  of_int = λ n. n;
  to_int = λ n. n;
  tenth = pos 0;
  fadd = add_64;
  fsub = sub_64;
  fmul = mul_64;
  fdiv = quot_64;
  sqrt = λ n. n;
}

-- The comparison of one slot with those of a list.
abbrev Against : Compare → (TxqSlot → ℕ) → TxqSlot → List TxqSlot → Type 0
Against cmp key x ys = All (λ b. Agrees cmp key x b × Agrees cmp key b x) ys

insert_cmp-by :
    (cmp : Compare) (key : TxqSlot → ℕ) (x : TxqSlot) (ys : List TxqSlot)
    → Against cmp key x ys
    → insert_cmp cmp x ys ≡ insert_by key x ys
unfolding insert_cmp insert_by
insert_cmp-by cmp key x [] h = refl
insert_cmp-by cmp key x (y ∷ ys) h = ground (arith, insert_cmp-by cmp key x ys h.1)

erase_cmp-by :
    (cmp : Compare) (key : TxqSlot → ℕ) (x : TxqSlot) (ys : List TxqSlot)
    → Against cmp key x ys
    → erase_cmp cmp x ys ≡ erase_by key x ys
unfolding erase_cmp erase_by
erase_cmp-by cmp key x [] h = refl
erase_cmp-by cmp key x (y ∷ ys) h = ground (arith, erase_cmp-by cmp key x ys h.1)

insert_cmp_keeps :
    (cmp : Compare) (P : TxqSlot → Type 0) (x : TxqSlot) (ys : List TxqSlot)
    → P x
    → All P ys
    → All P (insert_cmp cmp x ys)
unfolding insert_cmp
insert_cmp_keeps cmp P x [] h hs = (h, tt)
insert_cmp_keeps cmp P x (y ∷ ys) h hs = ground (arith, insert_cmp_keeps cmp P x ys h hs.1)

erase_cmp_keeps :
    (cmp : Compare) (P : TxqSlot → Type 0) (x : TxqSlot) (ys : List TxqSlot)
    → All P ys
    → All P (erase_cmp cmp x ys)
unfolding erase_cmp
erase_cmp_keeps cmp P x [] hs = tt
erase_cmp_keeps cmp P x (y ∷ ys) hs = ground (arith, erase_cmp_keeps cmp P x ys hs.1)

pub list_laws : TreeLaws list_externals
list_laws = record {
  Made = λ cmp t. t.compare ≡ cmp;
  made-new = λ cmp. refl;
  made-insert = λ s m. m;
  made-delete = λ s m. m;
  made-delete_min = λ m. m;
  made-map_items = λ f h m. m;
  items-map_items = λ f t. refl;
  items-new = λ cmp. refl;
  len-items = λ t. refl;
  items-delete_min = λ t. refl;
  all-insert = λ P s t h hs. insert_cmp_keeps t.compare P s t.content h hs;
  all-delete = λ P s t hs. erase_cmp_keeps t.compare P s t.content hs;
  items-insert = λ cmp key s t m k.
      ap (λ (c : Compare). insert_cmp c s t.content) m ∙ insert_cmp-by cmp key s t.content k.0.1;
  items-delete = λ cmp key s t m k.
      ap (λ (c : Compare). erase_cmp c s t.content) m ∙ erase_cmp-by cmp key s t.content k.0.1;
}
