-- ===== src/Externals.antt =====
-- What the program takes from code that is not in the repository: the red-black tree of
-- github.com/glycerine/rbtree, the hash of github.com/glycerine/blake2b, and float64 arithmetic.
pub mod Lists
use go_sliding_window.Base.{ℕ, ◌<◌, ◌≡◌, ◌↔◌, Bool, List, [], ◌∷◌, All, ltb, if◌then◌else◌, length}
use go_sliding_window.Base.Int.{ℤ, pos, ltb_ℤ, eq_ℤ, ◌≤ℤ◌}
use go_sliding_window.Packet.{TxqSlot}

abbrev pub Compare : Type 0
Compare = TxqSlot → TxqSlot → ℤ

pub record Externals : Type 1 where
  -- A tree, made with its comparison. `items` are what an iterator meets from `Min` to the limit.
  pub Tree : Type 0
  pub new_tree : Compare → Tree
  pub insert : TxqSlot → Tree → Tree
  pub delete_with_key : TxqSlot → Tree → Tree
  pub delete_min : Tree → Tree  -- `DeleteWithIterator` of `Min`
  pub items : Tree → List TxqSlot
  -- A tree holds pointers to slots: what it holds once the slots that it points to were written to.
  pub map_items : (TxqSlot → TxqSlot) → Tree → Tree
  pub len : Tree → ℕ
  pub blake2b : List ℕ → List ℕ
  pub Float : Type 0
  pub of_int : ℤ → Float
  pub to_int : Float → ℤ  -- `int64(x)`
  pub tenth : Float  -- 0.1
  pub fadd : Float → Float → Float
  pub fsub : Float → Float → Float
  pub fmul : Float → Float → Float
  pub fdiv : Float → Float → Float
  pub sqrt : Float → Float

-- The comparison orders the slots of a list by a number.
abbrev pub Agrees : Compare → (TxqSlot → ℕ) → TxqSlot → TxqSlot → Type 0
Agrees cmp key a b =
    ((ltb_ℤ (cmp a b) (pos 0)) ≡ ltb (key a) (key b))
    × ((ltb_ℤ (pos 0) (cmp a b)) ≡ ltb (key b) (key a))

abbrev pub IsKeyed : Compare → (TxqSlot → ℕ) → List TxqSlot → Type 0
IsKeyed cmp key xs = All (λ a. All (λ b. Agrees cmp key a b × Agrees cmp key b a) xs) xs

-- Writing to the slots changes no comparison of two of them.
abbrev pub SameOrder : Compare → (TxqSlot → TxqSlot) → List TxqSlot → Type 0
SameOrder cmp f xs = All (λ a. All (λ b. cmp (f a) (f b) ≡ cmp a b) xs) xs

abbrev pub map_slots : (TxqSlot → TxqSlot) → List TxqSlot → List TxqSlot
map_slots f [] = []
map_slots f (s ∷ ss) = f s ∷ map_slots f ss

-- A sorted list without repetitions, as `Insert` and `DeleteWithKey` change it: an item that
-- compares equal to one in the tree is not inserted.
unfoldable pub insert_by : (TxqSlot → ℕ) → TxqSlot → List TxqSlot → List TxqSlot
insert_by key x [] = x ∷ []
insert_by key x (y ∷ ys) =
    if ltb (key x) (key y)
    then x ∷ y ∷ ys
    else (if ltb (key y) (key x) then y ∷ insert_by key x ys else y ∷ ys)

unfoldable pub erase_by : (TxqSlot → ℕ) → TxqSlot → List TxqSlot → List TxqSlot
erase_by key x [] = []
erase_by key x (y ∷ ys) =
    if ltb (key x) (key y)
    then y ∷ erase_by key x ys
    else (if ltb (key y) (key x) then y ∷ erase_by key x ys else ys)

abbrev pub tail_of : List TxqSlot → List TxqSlot
tail_of [] = []
tail_of (x ∷ xs) = xs

module _ (x : Externals) where
  open x use {Tree, new_tree, insert, delete_with_key, delete_min, items, map_items, len}

  -- The documented behaviour of the tree. `Made cmp t`: the tree `t` was made with `cmp`.
  pub record TreeLaws : Type 1 where
    pub Made : Compare → Tree → Type 0
    pub made-new : (cmp : Compare) → Made cmp (new_tree cmp)
    pub made-insert : {cmp : Compare} {t : Tree} (s : TxqSlot) → Made cmp t → Made cmp (insert s t)
    pub made-delete :
        {cmp : Compare} {t : Tree} (s : TxqSlot) → Made cmp t → Made cmp (delete_with_key s t)
    pub made-delete_min : {cmp : Compare} {t : Tree} → Made cmp t → Made cmp (delete_min t)
    pub made-map_items :
        {cmp : Compare} {t : Tree} (f : TxqSlot → TxqSlot)
        → SameOrder cmp f (items t)
        → Made cmp t
        → Made cmp (map_items f t)
    pub items-map_items :
        (f : TxqSlot → TxqSlot) (t : Tree) → items (map_items f t) ≡ map_slots f (items t)
    pub items-new : (cmp : Compare) → items (new_tree cmp) ≡ []
    pub len-items : (t : Tree) → len t ≡ length (items t)
    pub items-delete_min : (t : Tree) → items (delete_min t) ≡ tail_of (items t)
    -- Whatever the comparison, a tree holds only what was inserted.
    pub all-insert :
        (P : TxqSlot → Type 0) (s : TxqSlot) (t : Tree)
        → P s
        → All P (items t)
        → All P (items (insert s t))
    pub all-delete :
        (P : TxqSlot → Type 0) (s : TxqSlot) (t : Tree)
        → All P (items t)
        → All P (items (delete_with_key s t))
    -- Where the comparison orders the items, the tree keeps them in that order.
    pub items-insert :
        (cmp : Compare) (key : TxqSlot → ℕ) (s : TxqSlot) (t : Tree)
        → Made cmp t
        → IsKeyed cmp key (s ∷ items t)
        → items (insert s t) ≡ insert_by key s (items t)
    pub items-delete :
        (cmp : Compare) (key : TxqSlot → ℕ) (s : TxqSlot) (t : Tree)
        → Made cmp t
        → IsKeyed cmp key (s ∷ items t)
        → items (delete_with_key s t) ≡ erase_by key s (items t)
