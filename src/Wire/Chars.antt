-- ===== src/Wire/Chars.antt =====
-- The code points of a text, and the characters that they stand for.
use Prim.Native.Nat.{compare, Ordering}
use Prim.Native.Char.{Char, char, code, nul, IsScalar, IsLt, len_utf8, len_utf8_def, width}
use Prim.Native.String.{len}
use Prim.Native.String.len
use go_sliding_window.Base.{
  ℕ, ◌+◌, ◌≤◌, ◌≡◌, refl, ap, Option, none, some, List, [], ◌∷◌, String, arith, length,
}
use go_sliding_window.Wire.Laws.{codes}

-- `IsScalar n` is these three comparisons, and can be decided.
abbrev Both : Ordering → Ordering → Type 0
Both Ordering.lt o = IsLt o
Both Ordering.eq _ = ⊥
Both Ordering.gt _ = ⊥

abbrev Scalar : Ordering → Ordering → Ordering → Type 0
Scalar Ordering.lt _ _ = Unit
Scalar Ordering.eq o p = Both o p
Scalar Ordering.gt o p = Both o p

less : (o : Ordering) → Option (IsLt o)
less Ordering.lt = some tt
less Ordering.eq = none
less Ordering.gt = none

less-some : (o : Ordering) (h : IsLt o) → less o ≡ some h
unfolding less
less-some Ordering.lt h = refl
less-some Ordering.eq h = absurd h
less-some Ordering.gt h = absurd h

both : (o p : Ordering) → Option (Both o p)
both Ordering.lt p = less p
both Ordering.eq p = none
both Ordering.gt p = none

both-some : (o p : Ordering) (h : Both o p) → both o p ≡ some h
unfolding both
both-some Ordering.lt p h = less-some p h
both-some Ordering.eq p h = absurd h
both-some Ordering.gt p h = absurd h

scalar : (o p q : Ordering) → Option (Scalar o p q)
scalar Ordering.lt p q = some tt
scalar Ordering.eq p q = both p q
scalar Ordering.gt p q = both p q

scalar-some : (o p q : Ordering) (h : Scalar o p q) → scalar o p q ≡ some h
unfolding scalar
scalar-some Ordering.lt p q h = refl
scalar-some Ordering.eq p q h = both-some p q h
scalar-some Ordering.gt p q h = both-some p q h

abbrev char_of : (n : ℕ) → Option (IsScalar n) → Char
char_of n none = nul
char_of n (some h) = char n h

unfoldable pub from_code : ℕ → Char
unfolding less both scalar
from_code n = char_of n (scalar (compare n 55296) (compare 57343 n) (compare n 1114112))

from_code-code : (c : Char) → from_code (code c) ≡ c
unfolding from_code
from_code-code (char n p) =
    ap (λ (o : Option (IsScalar n)). char_of n o)
      (scalar-some (compare n 55296) (compare 57343 n) (compare n 1114112) p)

unfoldable pub from_codes : List ℕ → String
unfolding from_code
from_codes [] = String.[]
from_codes (n ∷ ns) = String.◌∷◌ (from_code n) (from_codes ns)

pub from_codes-codes : (s : String) → from_codes (codes s) ≡ s
unfolding from_codes
from_codes-codes String.[] = refl
from_codes-codes (String.◌∷◌ c s) = cc (from_code-code c, from_codes-codes s)

one-le-width : (o p q : Ordering) → 1 ≤ width o p q
one-le-width Ordering.lt p q = omega arith
one-le-width Ordering.eq p q = ground arith
one-le-width Ordering.gt p q = ground arith

pub length-codes : (s : String) → length (codes s) ≤ len s
length-codes String.[] = omega arith
length-codes (String.◌∷◌ c s) =
    let more_bytes : len (String.◌∷◌ c s) ≡ len_utf8 c + len s = λ i. len.cons c s i in
    let bytes : len_utf8 c
        ≡ width (compare (code c) 128) (compare (code c) 2048) (compare (code c) 65536) =
      λ i. len_utf8_def c i in
    omega (
      arith,
      more_bytes,
      bytes,
      length-codes s,
      one-le-width (compare (code c) 128) (compare (code c) 2048) (compare (code c) 65536),
    )
