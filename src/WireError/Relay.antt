-- ===== src/WireError/Relay.antt =====
-- wire_error.go: what a client makes of an error that a skeleton sent.
use herrscher_transport.Prelude.{
  ◌≡◌, ◌≢◌, String, Option, none, some, Option-cases, inl, inr, [], arith, eq_refl,
}
use herrscher_transport.Errors.{Error, ok, remote, budget, as_budget}
use herrscher_transport.Errors.Format.{text}
use herrscher_transport.Codec.{Bytes}
use herrscher_transport.WireError.{
  ErrorWire, wire_error_kind_budget, encode_wire_error, decode_wire_error,
}

module _ {B : Type 0} (E : ErrorWire B) where
  open E use {format, budget_codec, wire_error_codec}

  abbrev relay_found : String → Option B → Error B
  relay_found message (some b) = budget b
  relay_found message none = remote message

  -- The error that the other side should see: the budget error of the chain, or the bare text.
  unfoldable pub relay : Error B → Error B
  unfolding as_budget
  relay e = relay_found (text format e) (as_budget e)

  -- The budget error and the object around it survive their codecs.
  pub record CarriesBudget (b : B) : Type 0 where
    pub content : Bytes
    pub payload : Bytes
    pub budget_marshal : budget_codec.marshal b ≡ ok content
    pub budget_unmarshal : budget_codec.unmarshal content ≡ ok b
    pub marshal :
        wire_error_codec.marshal (record { kind = wire_error_kind_budget; content = content })
        ≡ ok payload
    pub unmarshal :
        wire_error_codec.unmarshal payload
        ≡ ok (record { kind = wire_error_kind_budget; content = content })
    pub not_empty : payload ≢ []

  abbrev pub CarriesError : Error B → Type 0
  CarriesError e = (b : B) → as_budget e ≡ some b → CarriesBudget b

  decode-encode_none :
      (e : Error B)
      → as_budget e ≡ none
      → decode_wire_error E (encode_wire_error E e) (text format e) ≡ relay e
  unfolding relay encode_wire_error decode_wire_error
  decode-encode_none e n = ground arith

  decode-encode_budget :
      (e : Error B) (b : B)
      → as_budget e ≡ some b
      → CarriesBudget b
      → decode_wire_error E (encode_wire_error E e) (text format e) ≡ relay e
  unfolding relay encode_wire_error decode_wire_error
  decode-encode_budget e b s c = ground (
    arith,
    c.budget_marshal,
    c.budget_unmarshal,
    c.marshal,
    c.unmarshal,
    c.not_empty,
    eq_refl wire_error_kind_budget,
  )

  -- The error that a client decodes from a failure is the budget error in the chain of the
  -- skeleton's error, or else its text, if that budget error, when there is one, survives the wire.
  pub decode-encode_wire_error :
      (e : Error B)
      → CarriesError e
      → decode_wire_error E (encode_wire_error E e) (text format e) ≡ relay e
  decode-encode_wire_error e c = elim (Option-cases (as_budget e)) [
    | inl n ↦ decode-encode_none e n
    | inr (b, s) ↦ decode-encode_budget e b s (c b s)
  ]

  -- A second hop changes nothing more.
  pub relay-relay : (e : Error B) → relay (relay e) ≡ relay e
  unfolding relay text
  relay-relay e = ground arith
