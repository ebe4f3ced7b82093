-- ===== src/Wire/Plain.antt =====
-- A plain encoding that behaves as msgp is documented to: it shows that the laws can be met, and the
-- tests run with it. A value is written as its length or its sign, and what it consists of.

use go_sliding_window.Base.{
  ℕ, ◌+◌, ◌-◌, ◌*◌, ◌<◌, ◌≤◌, ◌≡◌, refl, ap, inr, none, some, List, [], ◌∷◌, ◌++◌, String, arith,
  length, take, drop, ◌==◌, if◌then◌else◌,
}
use go_sliding_window.Base.Int.{ℤ, pos, negsuc}
use go_sliding_window.Wire.{Read, Reads, Msgp}
use go_sliding_window.Wire.Laws.{codes, Encoding, IsReading, MsgpLaws}
use go_sliding_window.Wire.Chars.{from_codes, from_codes-codes, length-codes}

-- The functions.
abbrev pub int_code : ℤ → List ℕ
int_code (pos n) = 0 ∷ n ∷ []
int_code (negsuc n) = 1 ∷ n ∷ []

abbrev plain_encoding : Encoding
plain_encoding = record {
  array_header_bytes = λ n. n ∷ [];
  string_bytes = λ s. length (codes s) ∷ codes s;
  int64_bytes = int_code;
  int_bytes = int_code;
  time_bytes = int_code;
  bytes_bytes = λ bs. length bs ∷ bs;
}

unfoldable pub read_header : Read ℕ
read_header [] = (0, none)
read_header (n ∷ bts) = (n, some bts)

unfoldable pub read_map : Read ℕ
read_map [] = (0, none)
read_map (h ∷ []) = (h - 0x80, some [])
read_map (h ∷ l ∷ []) = (h - 0x80, some (l ∷ []))
read_map (h ∷ hi ∷ lo ∷ bts) =
    if h == 0xde then (hi * 256 + lo, some bts) else (h - 0x80, some (hi ∷ lo ∷ bts))

unfoldable pub read_key : Read String
unfolding from_codes
read_key [] = ("", none)
read_key (h ∷ bts) = (from_codes (take (h - 0xa0) bts), some (drop (h - 0xa0) bts))

unfoldable pub read_text : Read String
unfolding from_codes
read_text [] = ("", none)
read_text (n ∷ bts) = (from_codes (take n bts), some (drop n bts))

unfoldable pub read_number : Read ℤ
read_number [] = (pos 0, none)
read_number (s ∷ []) = (pos 0, none)
read_number (s ∷ n ∷ bts) = (if s == 0 then pos n else negsuc n, some bts)

unfoldable pub read_content : List ℕ → Read (List ℕ)
read_content old [] = ([], none)
read_content old (n ∷ bts) = (take n bts, some (drop n bts))

abbrev pub plain_reads : Reads
plain_reads = record {
  map_header = read_map;
  map_key = read_key;
  array_header = read_header;
  read_string = read_text;
  read_int64 = read_number;
  read_int = read_number;
  read_time = read_number;
  read_bytes = read_content;
  skip = λ bts. none;
}

take-length : {A : Type 0} (xs ys : List A) → take (length xs) (xs ++ ys) ≡ xs
take-length [] ys = refl
take-length (x ∷ xs) ys = ap (λ l. x ∷ l) (take-length xs ys)

drop-length : {A : Type 0} (xs ys : List A) → drop (length xs) (xs ++ ys) ≡ ys
drop-length [] ys = refl
drop-length (x ∷ xs) ys = drop-length xs ys

read_map_fix : (n : ℕ) (rest : List ℕ) → n < 16 → read_map ((0x80 + n) ∷ rest) ≡ (n, some rest)
unfolding read_map
read_map_fix n [] h = ground arith
read_map_fix n (a ∷ []) h = ground arith
read_map_fix n (a ∷ b ∷ rest) h = ground arith

read_key_lem :
    (s : String) (rest : List ℕ)
    → read_key ((0xa0 + length (codes s)) ∷ (codes s ++ rest)) ≡ (s, some rest)
unfolding read_key
read_key_lem s rest =
    let k : 0xa0 + length (codes s) - 0xa0 ≡ length (codes s) = omega arith in
    rw (k, take-length (codes s) rest, drop-length (codes s) rest, from_codes-codes s) refl

read_text_lem :
    (s : String) (rest : List ℕ) → read_text (length (codes s) ∷ (codes s ++ rest)) ≡ (s, some rest)
unfolding read_text
read_text_lem s rest =
    rw (take-length (codes s) rest, drop-length (codes s) rest, from_codes-codes s) refl

read_number_lem : (n : ℤ) (rest : List ℕ) → read_number (int_code n ++ rest) ≡ (n, some rest)
unfolding read_number
read_number_lem (pos n) rest = refl
read_number_lem (negsuc n) rest = refl

read_content_lem :
    (old bs rest : List ℕ) → read_content old (length bs ∷ (bs ++ rest)) ≡ (bs, some rest)
unfolding read_content
read_content_lem old bs rest = rw (take-length bs rest, drop-length bs rest) refl

length-int_code : (n : ℤ) → length (int_code n) ≤ 2
length-int_code (pos n) = omega arith
length-int_code (negsuc n) = omega arith

plain-IsReading : IsReading plain_encoding plain_reads
unfolding read_header read_map
plain-IsReading = record {
  map_header_fix = read_map_fix;
  map_header_16 = λ hi lo rest h k. refl;
  map_key_fix = λ s rest k. read_key_lem s rest;
  array_header_lem = λ n h rest. refl;
  read_string_lem = λ s h rest. read_text_lem s rest;
  read_int64_lem = λ n h rest. read_number_lem n rest;
  read_int_lem = λ n h rest. read_number_lem n rest;
  read_time_lem = λ n h rest. read_number_lem n rest;
  read_bytes_lem = λ old bs h rest. read_content_lem old bs rest;
}

abbrev pub plain_msgp : Msgp
plain_msgp = record {
  slices = plain_reads;
  reader = plain_reads;
  appends = record {
    append_array_header = λ o n. o ++ n ∷ [];
    append_string = λ o s. o ++ length (codes s) ∷ codes s;
    append_int64 = λ o n. o ++ int_code n;
    append_int = λ o n. o ++ int_code n;
    append_time = λ o n. o ++ int_code n;
    append_bytes = λ o bs. o ++ length bs ∷ bs;
  };
  writer = record {
    append_raw = λ o bs. some (o ++ bs);
    write_array_header = λ o n. some (o ++ n ∷ []);
    write_string = λ o s. some (o ++ length (codes s) ∷ codes s);
    write_int64 = λ o n. some (o ++ int_code n);
    write_int = λ o n. some (o ++ int_code n);
    write_time = λ o n. some (o ++ int_code n);
    write_bytes = λ o bs. some (o ++ length bs ∷ bs);
  };
  sizes = record {
    array_header_size = 1;
    string_prefix_size = 1;
    int64_size = 2;
    int_size = 2;
    time_size = 2;
    bytes_prefix_size = 1;
  };
}

pub plain_laws : MsgpLaws plain_msgp
plain_laws = record {
  encoding = plain_encoding;
  of_slices = plain-IsReading;
  of_reader = plain-IsReading;
  of_appends = record {
    append_array_header_lem = λ n o. refl;
    append_string_lem = λ s o. refl;
    append_int64_lem = λ n o. refl;
    append_int_lem = λ n o. refl;
    append_time_lem = λ n o. refl;
    append_bytes_lem = λ bs o. refl;
  };
  of_writer = record {
    append_raw_lem = λ bs o. inr refl;
    write_array_header_lem = λ n o. inr refl;
    write_string_lem = λ s o. inr refl;
    write_int64_lem = λ n o. inr refl;
    write_int_lem = λ n o. inr refl;
    write_time_lem = λ n o. inr refl;
    write_bytes_lem = λ bs o. inr refl;
  };
  of_sizes = record {
    array_header_size_lem = λ n. omega arith;
    string_size_lem = λ s. omega (arith, length-codes s);
    int64_size_lem = length-int_code;
    int_size_lem = length-int_code;
    time_size_lem = length-int_code;
    bytes_size_lem = λ bs. omega arith;
  };
}
