-- ===== src/Wire/Laws.antt =====
-- The documented behaviour of github.com/tinylib/msgp, as far as the generated code relies on it, and
-- what follows for a map of fields.
use Prim.Native.Char.{code}
use Prim.Native.String.{len}
use go_sliding_window.Base.{
  ℕ, suc, ◌+◌, ◌*◌, ◌^◌, ◌<◌, ◌≤◌, ◌≡◌, refl, ◌∙◌, ap, subst, ◌⊎◌, inl, inr, Option, none, some,
  List, [], ◌∷◌, ◌++◌, append_assoc, String, All, length, ◌>>=◌,
}
use go_sliding_window.Base.Int.{ℤ, pos_part, neg_part, two_63}
use go_sliding_window.Packet.{Time}
use go_sliding_window.Wire.{
  Reads, Sizes, Appends, Writes, Msgp, Decoded, more, assign, raw, with_key, after_field,
  decode_fields,
}

-- The code points of a text: its bytes, if it is ASCII.
abbrev pub codes : String → List ℕ
codes String.[] = []
codes (String.◌∷◌ c s) = code c ∷ codes s

-- What the formats have room for.
abbrev pub IsText : String → Type 0
IsText s = len s < 2 ^ 32

abbrev pub IsBytes : List ℕ → Type 0
IsBytes bs = All (λ b. b < 256) bs × (length bs < 2 ^ 32)

abbrev pub IsInt64 : ℤ → Type 0
IsInt64 n = (pos_part n < two_63) × (neg_part n ≤ two_63)

-- The seconds are an `int64`.
abbrev pub IsTime : Time → Type 0
IsTime t = (pos_part t < two_63 * 1_000_000_000) × (neg_part t ≤ two_63 * 1_000_000_000)

-- A key that is written with one byte for its length.
abbrev pub IsKey : String → Type 0
IsKey s = All (λ c. c < 128) (codes s) × (length (codes s) < 32)

-- The bytes that stand for a value.
pub record Encoding : Type 0 where
  pub array_header_bytes : ℕ → List ℕ
  pub string_bytes : String → List ℕ
  pub int64_bytes : ℤ → List ℕ
  pub int_bytes : ℤ → List ℕ
  pub time_bytes : Time → List ℕ
  pub bytes_bytes : List ℕ → List ℕ

-- The reading functions read such bytes, and leave what follows. A map of less than 16 fields, and a
-- key of less than 32 bytes, have a header of one byte; 0xde stands before a length of two bytes.
pub record IsReading (e : Encoding) (r : Reads) : Type 0 where
  pub map_header_fix :
      (n : ℕ) (rest : List ℕ) → n < 16 → r.map_header ((0x80 + n) ∷ rest) ≡ (n, some rest)
  pub map_header_16 :
      (hi lo : ℕ) (rest : List ℕ)
      → hi < 256
      → lo < 256
      → r.map_header (0xde ∷ hi ∷ lo ∷ rest) ≡ (hi * 256 + lo, some rest)
  pub map_key_fix :
      (s : String) (rest : List ℕ)
      → IsKey s
      → r.map_key ((0xa0 + length (codes s)) ∷ (codes s ++ rest)) ≡ (s, some rest)
  pub array_header_lem :
      (n : ℕ)
      → n < 2 ^ 32
      → (rest : List ℕ) → r.array_header (e.array_header_bytes n ++ rest) ≡ (n, some rest)
  pub read_string_lem :
      (s : String)
      → IsText s
      → (rest : List ℕ) → r.read_string (e.string_bytes s ++ rest) ≡ (s, some rest)
  pub read_int64_lem :
      (n : ℤ)
      → IsInt64 n
      → (rest : List ℕ) → r.read_int64 (e.int64_bytes n ++ rest) ≡ (n, some rest)
  pub read_int_lem :
      (n : ℤ) → IsInt64 n → (rest : List ℕ) → r.read_int (e.int_bytes n ++ rest) ≡ (n, some rest)
  pub read_time_lem :
      (t : Time)
      → IsTime t
      → (rest : List ℕ) → r.read_time (e.time_bytes t ++ rest) ≡ (t, some rest)
  pub read_bytes_lem :
      (old bs : List ℕ)
      → IsBytes bs
      → (rest : List ℕ) → r.read_bytes old (e.bytes_bytes bs ++ rest) ≡ (bs, some rest)

-- The appending functions add such bytes at the end.
pub record IsAppending (e : Encoding) (a : Appends) : Type 0 where
  pub append_array_header_lem :
      (n : ℕ) (o : List ℕ) → a.append_array_header o n ≡ o ++ e.array_header_bytes n
  pub append_string_lem : (s : String) (o : List ℕ) → a.append_string o s ≡ o ++ e.string_bytes s
  pub append_int64_lem : (n : ℤ) (o : List ℕ) → a.append_int64 o n ≡ o ++ e.int64_bytes n
  pub append_int_lem : (n : ℤ) (o : List ℕ) → a.append_int o n ≡ o ++ e.int_bytes n
  pub append_time_lem : (t : Time) (o : List ℕ) → a.append_time o t ≡ o ++ e.time_bytes t
  pub append_bytes_lem : (bs o : List ℕ) → a.append_bytes o bs ≡ o ++ e.bytes_bytes bs

-- A write fails, or the bytes are `o`.
abbrev pub Wrote : Option (List ℕ) → List ℕ → Type 0
Wrote m o = (m ≡ none) ⊎ (m ≡ some o)

pub record IsWriting (e : Encoding) (w : Writes) : Type 0 where
  pub append_raw_lem : (bs o : List ℕ) → Wrote (w.append_raw o bs) (o ++ bs)
  pub write_array_header_lem :
      (n : ℕ) (o : List ℕ) → Wrote (w.write_array_header o n) (o ++ e.array_header_bytes n)
  pub write_string_lem :
      (s : String) (o : List ℕ) → Wrote (w.write_string o s) (o ++ e.string_bytes s)
  pub write_int64_lem : (n : ℤ) (o : List ℕ) → Wrote (w.write_int64 o n) (o ++ e.int64_bytes n)
  pub write_int_lem : (n : ℤ) (o : List ℕ) → Wrote (w.write_int o n) (o ++ e.int_bytes n)
  pub write_time_lem : (t : Time) (o : List ℕ) → Wrote (w.write_time o t) (o ++ e.time_bytes t)
  pub write_bytes_lem : (bs o : List ℕ) → Wrote (w.write_bytes o bs) (o ++ e.bytes_bytes bs)

-- The sizes are upper bounds.
pub record IsSizes (e : Encoding) (s : Sizes) : Type 0 where
  pub array_header_size_lem : (n : ℕ) → length (e.array_header_bytes n) ≤ s.array_header_size
  pub string_size_lem : (t : String) → length (e.string_bytes t) ≤ s.string_prefix_size + len t
  pub int64_size_lem : (n : ℤ) → length (e.int64_bytes n) ≤ s.int64_size
  pub int_size_lem : (n : ℤ) → length (e.int_bytes n) ≤ s.int_size
  pub time_size_lem : (t : Time) → length (e.time_bytes t) ≤ s.time_size
  pub bytes_size_lem : (bs : List ℕ) → length (e.bytes_bytes bs) ≤ s.bytes_prefix_size + length bs

pub record MsgpLaws (m : Msgp) : Type 0 where
  pub encoding : Encoding
  pub of_slices : IsReading encoding m.slices
  pub of_reader : IsReading encoding m.reader
  pub of_appends : IsAppending encoding m.appends
  pub of_writer : IsWriting encoding m.writer
  pub of_sizes : IsSizes encoding m.sizes

-- A key and the bytes of its value, one after the other.
abbrev pub Fields : Type 0
Fields = List (String × List ℕ)

abbrev pub fields_bytes : Fields → List ℕ
fields_bytes [] = []
fields_bytes ((key, v) ∷ es) = (0xa0 + length (codes key)) ∷ (codes key ++ (v ++ fields_bytes es))

abbrev pub key_bytes : String → List ℕ
key_bytes key = (0xa0 + length (codes key)) ∷ codes key

abbrev pub HasKeys : Fields → Type 0
HasKeys [] = Unit
HasKeys ((key, v) ∷ es) = IsKey key × HasKeys es

-- The switch turns `z` into `z'` over these fields, one after the other.
infixr 2 ◌▸◌
pub data Fills {Z : Type 0} (field : String → Z → List ℕ → Decoded Z)
    : Z → Fields → Z → Type 0 where
  filled : {z z' : Z} → z ≡ z' → Fills field z [] z'
  ◌▸◌ :
      {z z' next : Z} {key : String} {v : List ℕ} {es : Fields}
      → ((rest : List ℕ) → field key z (v ++ rest) ≡ more next rest)
      → Fills field next es z'
      → Fills field z ((key, v) ∷ es) z'

-- What a reading function gives, the switch assigns.
pub reads :
    {A Z : Type 0} {v : A} {rest : List ℕ} {out : A × Option (List ℕ)} (set : A → Z)
    → out ≡ (v, some rest)
    → assign out set ≡ more (set v) rest
reads set h = ap (λ o. assign o set) h

module _ {Z : Type 0} (e : Encoding) (r : Reads) (ok : IsReading e r)
    (field : String → Z → List ℕ → Decoded Z) where
  key_step :
      (n : ℕ) (key : String) (z next : Z) (v rest : List ℕ)
      → IsKey key
      → field key z v ≡ more next rest
      → decode_fields r field (suc n) z ((0xa0 + length (codes key)) ∷ (codes key ++ v))
        ≡ decode_fields r field n next rest
  unfolding decode_fields
  key_step n key z next v rest k h =
      ap (with_key r field (λ z' b. decode_fields r field n z' b) z) (ok.map_key_fix key v k)
      ∙ ap (after_field r field (λ z' b. decode_fields r field n z' b)) h

  -- The loop reads the fields one after the other.
  pub decode_fields-bytes :
      (es : Fields) (z z' : Z) (rest : List ℕ)
      → HasKeys es
      → Fills field z es z'
      → decode_fields r field (length es) z (fields_bytes es ++ rest) ≡ more z' rest
  unfolding decode_fields
  decode_fields-bytes [] z z' rest ks (filled h) = ap (λ (q : Z). more q rest) h
  decode_fields-bytes ((key, v) ∷ es) z z' rest (k, ks) (◌▸◌ {next} step h) =
      let split = append_assoc (codes key) (v ++ fields_bytes es) rest in
      let inner = append_assoc v (fields_bytes es) rest in
      ap
        (λ (l : List ℕ).
          decode_fields r field (suc (length es)) z ((0xa0 + length (codes key)) ∷ l))
        (split ∙ ap (λ (l : List ℕ). codes key ++ l) inner)
      ∙ key_step (length es) key z next (v ++ (fields_bytes es ++ rest)) (fields_bytes es ++ rest) k
          (step (fields_bytes es ++ rest))
      ∙ decode_fields-bytes es next z' rest ks h

-- One write after another: what `f` adds to any bytes, it adds to those written by `m`.
infixl 2 ◌▹◌ ◌▹▹◌
pub ◌▹◌ :
    {m : Option (List ℕ)} {f : List ℕ → Option (List ℕ)} {o bs : List ℕ}
    → Wrote m o
    → ((o' : List ℕ) → Wrote (f o') (o' ++ bs))
    → Wrote (m >>= f) (o ++ bs)
◌▹◌ {m} {f} {o} (inl bad) h = inl (rw bad refl)
◌▹◌ {m} {f} {o} (inr good) h = rw good (h o)

pub Wrote-as : {m : Option (List ℕ)} {o o' : List ℕ} → Wrote m o → o ≡ o' → Wrote m o'
Wrote-as {m} w e = subst (Wrote m) e w

-- One append after another.
pub ◌▹▹◌ :
    {f : List ℕ → List ℕ} {m o bs : List ℕ}
    → m ≡ o
    → ((o' : List ℕ) → f o' ≡ o' ++ bs)
    → f m ≡ o ++ bs
◌▹▹◌ {m} {bs} e h = h m ∙ ap (λ (l : List ℕ). l ++ bs) e

pub raw_lem : (bs o : List ℕ) → raw bs o ≡ o ++ bs
raw_lem bs o = refl
