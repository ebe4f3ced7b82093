-- ===== src/Wire/MessageTrip.antt =====
-- swp_gen.go: what is written for a SynAckAck, a ByteAccount or a TerminatedError is read back.
use go_sliding_window.Base.{
  String, ℕ, ◌+◌, ◌<◌, ◌≡◌, refl, ◌∙◌, ap, sym, inr, Option, some, List, [], ◌∷◌, ◌++◌,
  append_assoc, append-nil, arith, length, length-take, length-replicate, All,
}
use go_sliding_window.Base.Int.{ℤ, pos}
use go_sliding_window.Wire.{Msgp, Reads, Appends, Writes, Decoded, more, decode_map, with_header}
use go_sliding_window.Wire.Messages.{
  ByteAccount, TerminatedError, resliced, read_elements, with_element, append_elements,
  write_elements, byte_account_field, marshal_byte_account, encode_byte_account,
  terminated_error_field, marshal_terminated_error, encode_terminated_error,
}
use go_sliding_window.Wire.Laws.{
  Encoding, IsReading, IsAppending, IsWriting, Fields, fields_bytes, Fills, filled, ◌▸◌, reads,
  IsText, IsInt64, HasKeys, decode_fields-bytes, Wrote, ◌▹◌, Wrote-as, ◌▹▹◌, raw_lem, key_bytes,
}

-- A map with few fields.
pub decode_map-fields :
    {Z : Type 0} (e : Encoding) (r : Reads) (ok : IsReading e r)
    (field : String → Z → List ℕ → Decoded Z) (es : Fields) (z z' : Z) (rest : List ℕ)
    → HasKeys es
    → length es < 16
    → Fills field z es z'
    → decode_map r field z ((0x80 + length es) ∷ (fields_bytes es ++ rest)) ≡ more z' rest
unfolding decode_map
decode_map-fields e r ok field es z z' rest ks few h =
    ap (with_header r field z) (ok.map_header_fix (length es) (fields_bytes es ++ rest) few)
    ∙ decode_fields-bytes e r ok field es z z' rest ks h

abbrev pub elements_bytes : Encoding → List ℤ → List ℕ
elements_bytes e [] = []
elements_bytes e (x ∷ xs) = e.int64_bytes x ++ elements_bytes e xs

pub read_elements_lem :
    (e : Encoding) (r : Reads) (ok : IsReading e r) (old xs : List ℤ) (rest : List ℕ)
    → All IsInt64 xs
    → length old ≡ length xs
    → read_elements r old (elements_bytes e xs ++ rest) ≡ (xs, some rest)
unfolding read_elements
read_elements_lem e r ok [] [] rest fit h = refl
read_elements_lem e r ok [] (x ∷ xs) rest fit h = absurd (omega (arith, h))
read_elements_lem e r ok (y ∷ old) [] rest fit h = absurd (omega (arith, h))
read_elements_lem e r ok (y ∷ old) (x ∷ xs) rest (fit, fits) h =
    let same : length old ≡ length xs = omega (arith, h) in
    let after = read_elements_lem e r ok old xs rest fits same in
    let one = ok.read_int64_lem x fit (elements_bytes e xs ++ rest) in
    ap (λ (l : List ℕ). with_element r old (λ b. read_elements r old b) (r.read_int64 l))
      (append_assoc (e.int64_bytes x) (elements_bytes e xs) rest)
    ∙ ap (λ q. with_element r old (λ b. read_elements r old b) q) one
    ∙ ap (λ (q : List ℤ × Option (List ℕ)). (x ∷ q.0, q.1)) after

pub length-resliced : (xs spare : List ℤ) (n : ℕ) → length (resliced xs spare n).0 ≡ n
unfolding resliced
length-resliced xs spare n = ground (arith, length-take n (xs ++ spare), length-replicate n (pos 0))

pub append_elements_lem :
    (e : Encoding) (a : Appends) (ok : IsAppending e a) (xs : List ℤ) (o : List ℕ)
    → append_elements a xs o ≡ o ++ elements_bytes e xs
unfolding append_elements
append_elements_lem e a ok [] o = sym (append-nil o)
append_elements_lem e a ok (x ∷ xs) o =
    append_elements_lem e a ok xs (a.append_int64 o x)
    ∙ ap (λ (l : List ℕ). l ++ elements_bytes e xs) (ok.append_int64_lem x o)
    ∙ append_assoc o (e.int64_bytes x) (elements_bytes e xs)

pub write_elements-Wrote :
    (e : Encoding) (w : Writes) (ok : IsWriting e w) (xs : List ℤ) (o : List ℕ)
    → Wrote (write_elements w xs o) (o ++ elements_bytes e xs)
unfolding write_elements
write_elements-Wrote e w ok [] o = inr (ap some (sym (append-nil o)))
write_elements-Wrote e w ok (x ∷ xs) o =
    Wrote-as (ok.write_int64_lem x o ▹ write_elements-Wrote e w ok xs)
      (append_assoc o (e.int64_bytes x) (elements_bytes e xs))

pub record ByteAccountFits (z : ByteAccount) : Type 0 where
  pub num_bytes_acked_fits : IsInt64 z.num_bytes_acked

abbrev pub byte_account_fields : Encoding → ByteAccount → Fields
byte_account_fields e z = ("NumBytesAcked", e.int64_bytes z.num_bytes_acked) ∷ []

abbrev pub byte_account_bytes : Encoding → ByteAccount → List ℕ
byte_account_bytes e z = 0x81 ∷ fields_bytes (byte_account_fields e z)

pub decode_map-byte_account :
    (e : Encoding) (r : Reads) (ok : IsReading e r) (z0 z : ByteAccount) (rest : List ℕ)
    → ByteAccountFits z
    → decode_map r (byte_account_field r) z0 (byte_account_bytes e z ++ rest) ≡ more z rest
unfolding byte_account_field
decode_map-byte_account e r ok z0 z rest f =
    decode_map-fields e r ok (byte_account_field r) (byte_account_fields e z) z0 z rest
      (omega arith) (omega arith)
      ((λ rest'. reads _ (ok.read_int64_lem z.num_bytes_acked f.num_bytes_acked_fits rest'))
        ▸ filled refl)

pub marshal_byte_account_lem :
    (m : Msgp) (e : Encoding) (ok : IsAppending e m.appends) (z : ByteAccount) (b : List ℕ)
    → marshal_byte_account m z b ≡ b ++ byte_account_bytes e z
unfolding marshal_byte_account
marshal_byte_account_lem m e ok z b =
    let start : b ≡ b = refl in
    (start ▹▹ raw_lem (0x81 ∷ key_bytes "NumBytesAcked") ▹▹ ok.append_int64_lem z.num_bytes_acked)
    ∙ simp (append_assoc, append-nil)

pub encode_byte_account-Wrote :
    (m : Msgp) (e : Encoding) (ok : IsWriting e m.writer) (z : ByteAccount) (b : List ℕ)
    → Wrote (encode_byte_account m z b) (b ++ byte_account_bytes e z)
unfolding encode_byte_account
encode_byte_account-Wrote m e ok z b =
    let first : Wrote (some b) b = inr refl in
    Wrote-as (first ▹ ok.append_raw_lem _ ▹ ok.write_int64_lem z.num_bytes_acked)
      (simp (append_assoc, append-nil))

pub record TerminatedErrorFits (z : TerminatedError) : Type 0 where
  pub msg_fits : IsText z.msg

abbrev pub terminated_error_fields : Encoding → TerminatedError → Fields
terminated_error_fields e z = ("Msg", e.string_bytes z.msg) ∷ []

abbrev pub terminated_error_bytes : Encoding → TerminatedError → List ℕ
terminated_error_bytes e z = 0x81 ∷ fields_bytes (terminated_error_fields e z)

pub decode_map-terminated_error :
    (e : Encoding) (r : Reads) (ok : IsReading e r) (z0 z : TerminatedError) (rest : List ℕ)
    → TerminatedErrorFits z
    → decode_map r (terminated_error_field r) z0 (terminated_error_bytes e z ++ rest) ≡ more z rest
unfolding terminated_error_field
decode_map-terminated_error e r ok z0 z rest f =
    decode_map-fields e r ok (terminated_error_field r) (terminated_error_fields e z) z0 z rest
      (omega arith) (omega arith)
      ((λ rest'. reads _ (ok.read_string_lem z.msg f.msg_fits rest')) ▸ filled refl)

pub marshal_terminated_error_lem :
    (m : Msgp) (e : Encoding) (ok : IsAppending e m.appends) (z : TerminatedError) (b : List ℕ)
    → marshal_terminated_error m z b ≡ b ++ terminated_error_bytes e z
unfolding marshal_terminated_error
marshal_terminated_error_lem m e ok z b =
    let start : b ≡ b = refl in
    (start ▹▹ raw_lem (0x81 ∷ key_bytes "Msg") ▹▹ ok.append_string_lem z.msg)
    ∙ simp (append_assoc, append-nil)

pub encode_terminated_error-Wrote :
    (m : Msgp) (e : Encoding) (ok : IsWriting e m.writer) (z : TerminatedError) (b : List ℕ)
    → Wrote (encode_terminated_error m z b) (b ++ terminated_error_bytes e z)
unfolding encode_terminated_error
encode_terminated_error-Wrote m e ok z b =
    let first : Wrote (some b) b = inr refl in
    Wrote-as (first ▹ ok.append_raw_lem _ ▹ ok.write_string_lem z.msg)
      (simp (append_assoc, append-nil))
