-- ===== src/Codec.antt =====
-- codec.go: JSON values and argument tuples on the wire. encoding/json is not under this
-- repository: `Wire` holds what the code calls of it. A typed value is carried by a `Codec`, its
-- Marshal and Unmarshal at that type; `any` is a `Slot`, a type with its codec.
pub mod RoundTrip
use herrscher_transport.Prelude.{
  ℕ, suc, ◌≡◌, Bool, true, List, [], ◌∷◌, length, nat_eq, String, ◌⧺◌, if◌then◌else◌,
}
use herrscher_transport.Errors.Format.{Format}
use herrscher_transport.Errors.{Error, Result, ok, err, wrap, wrapped, arg_count, ◌>>=◌}

abbrev pub Bytes : Type 0
Bytes = List ℕ

-- The JSON array of the given encodings, its elements cut out again (Unmarshal into
-- []json.RawMessage), and json.Valid.
pub record Wire (B : Type 0) : Type 0 where
  pub format : Format B
  pub array : List Bytes → Bytes
  pub elements : Bytes → Result B (List Bytes)
  pub is_json : Bytes → Bool

pub record Codec (B : Type 0) (A : Type 0) : Type 0 where
  pub marshal : A → Result B Bytes
  pub unmarshal : Bytes → Result B A

pub record Slot (B : Type 0) : Type 1 where
  pub Value : Type 0
  pub codec : Codec B Value

abbrev pub slot : {B A : Type 0} → Codec B A → Slot B
slot {A} c = record { Value = A; codec = c }

-- The values of an argument list.
abbrev pub Args : {B : Type 0} → List (Slot B) → Type 0
Args [] = Unit
Args (c ∷ cs) = c.Value × Args cs

module _ {B : Type 0} (W : Wire B) where
  open W use {format, array, elements}

  abbrev cons_encoding : Bytes → Result B (List Bytes) → Result B (List Bytes)
  cons_encoding b rest = do bs ← rest; ok (b ∷ bs)

  unfoldable pub marshal_each : (cs : List (Slot B)) → Args cs → Result B (List Bytes)
  marshal_each [] vals = ok []
  marshal_each (c ∷ cs) vals = do
    b ← c.codec.marshal vals.0
    cons_encoding b (marshal_each cs vals.1)

  -- encodeArgs, and Marshal of the variadic `args` in the proxies
  unfoldable pub encode_args : (cs : List (Slot B)) → Args cs → Result B Bytes
  unfolding marshal_each
  encode_args cs vals = do raw ← marshal_each cs vals; ok (array raw)

  -- The loop over `dst`, from `index` on; the payload has as many elements as there are slots.
  unfoldable pub unmarshal_each : ℕ → (cs : List (Slot B)) → List Bytes → Result B (Args cs)
  unmarshal_each index [] raw = ok tt
  unmarshal_each index (c ∷ cs) [] = err (arg_count (suc (length cs)) 0)
  unmarshal_each index (c ∷ cs) (b ∷ raw) = do
    v ← wrapped ("transport: decode arg " ⧺ format.decimal index) (c.codec.unmarshal b)
    vs ← unmarshal_each (suc index) cs raw
    ok (v, vs)

  -- decodeArgs
  unfoldable pub decode_args : (cs : List (Slot B)) → Bytes → Result B (Args cs)
  unfolding unmarshal_each
  decode_args cs payload = do
    raw ← wrapped "transport: decode args" (elements payload)
    if nat_eq (length raw) (length cs)
        then unmarshal_each 0 cs raw
        else err (arg_count (length cs) (length raw))
