-- ===== src/Tests/Wire.antt =====
-- A small wire to run the code on: budget errors are numbers, an array is its elements with a tag before
-- each byte and a zero after each element.
use herrscher_transport.Prelude.{
  ℕ, zero, suc, ◌≡◌, refl, ℤ, pos, negsuc, true, String, List, [], ◌∷◌, ◌==◌, if◌then◌else◌,
}
use herrscher_transport.Errors.{Result, ok, err, external}
use herrscher_transport.Errors.Format.{Format}
use herrscher_transport.Codec.{Bytes, Wire, Codec}
use herrscher_transport.Codec.RoundTrip.{KeepsElements}
use herrscher_transport.WireError.{WireError, ErrorWire}
use herrscher_transport.Announce.{mac_equal}

abbrev tagged : Bytes → Bytes → Bytes
tagged [] rest = 0 ∷ rest
tagged (b ∷ x) rest = 1 ∷ b ∷ tagged x rest

abbrev array : List Bytes → Bytes
array [] = []
array (x ∷ xs) = tagged x (array xs)

abbrev cons_empty : Result ℕ (List Bytes) → Result ℕ (List Bytes)
cons_empty (ok xs) = ok ([] ∷ xs)
cons_empty (err e) = err e

abbrev push_byte : ℕ → Result ℕ (List Bytes) → Result ℕ (List Bytes)
push_byte b (ok (x ∷ xs)) = ok ((b ∷ x) ∷ xs)
push_byte b (ok []) = err (external "unexpected end of JSON input")
push_byte b (err e) = err e

abbrev elements : Bytes → Result ℕ (List Bytes)
elements [] = ok []
elements (zero ∷ rest) = cons_empty (elements rest)
elements (suc t ∷ []) = err (external "unexpected end of JSON input")
elements (suc t ∷ b ∷ rest) = push_byte b (elements rest)

abbrev cons_to : Bytes → Result ℕ (List Bytes) → Result ℕ (List Bytes)
cons_to x (ok xs) = ok (x ∷ xs)
cons_to x (err e) = err e

elements-tagged :
    (x rest : Bytes) (xs : List Bytes)
    → elements rest ≡ ok xs
    → elements (tagged x rest) ≡ ok (x ∷ xs)
elements-tagged [] rest xs h = rw h
elements-tagged (b ∷ x) rest xs h = rw (elements-tagged x rest xs h)

elements-array : (raw : List Bytes) → elements (array raw) ≡ ok raw
elements-array [] = refl
elements-array (x ∷ xs) = elements-tagged x (array xs) xs (elements-array xs)

abbrev pub plain_format : Format ℕ
plain_format = record { quote = λ s. s; decimal = λ n. "n"; budget_text = λ n. "over budget" }

abbrev pub plain_wire : Wire ℕ
plain_wire = record {
  format = plain_format;
  array = array;
  elements = elements;
  is_json = λ b. true;
}

pub plain_wire_keeps : KeepsElements plain_wire
plain_wire_keeps = record { elements-array = λ raw h. elements-array raw }

abbrev one_number : Bytes → Result ℕ ℕ
one_number (n ∷ []) = ok n
one_number b = err (external "not a number")

abbrev pub number_codec : Codec ℕ ℕ
number_codec = record { marshal = λ n. ok (n ∷ []); unmarshal = one_number }

abbrev pub bytes_codec : Codec ℕ Bytes
bytes_codec = record { marshal = λ b. ok b; unmarshal = λ b. ok b }

abbrev int_bytes : ℤ → Bytes
int_bytes (pos n) = 0 ∷ n ∷ []
int_bytes (negsuc n) = 1 ∷ n ∷ []

abbrev bytes_int : Bytes → Result ℕ ℤ
bytes_int (zero ∷ n ∷ []) = ok (pos n)
bytes_int (suc s ∷ n ∷ []) = ok (negsuc n)
bytes_int b = err (external "not an integer")

abbrev pub int_codec : Codec ℕ ℤ
int_codec = record { marshal = λ z. ok (int_bytes z); unmarshal = bytes_int }

-- Two words.
abbrev pub text_codec : Codec ℕ String
text_codec = record {
  marshal = λ s.
      if s == "a"
      then ok (97 ∷ [])
      else if s == "hi"
      then ok (104 ∷ 105 ∷ [])
      else err (external "unknown word");
  unmarshal = λ b.
      if mac_equal b (97 ∷ [])
      then ok "a"
      else if mac_equal b (104 ∷ 105 ∷ [])
      then ok "hi"
      else err (external "unknown word");
}

abbrev tagged_budget : Bytes → Result ℕ WireError
tagged_budget [] = err (external "not an object")
tagged_budget (t ∷ content) = ok (record { kind = "budget"; content = content })

abbrev pub plain : ErrorWire ℕ
plain = record {
  wire = plain_wire;
  budget_codec = number_codec;
  wire_error_codec = record { marshal = λ w. ok (7 ∷ w.content); unmarshal = tagged_budget };
}
