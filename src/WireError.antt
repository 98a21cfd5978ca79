-- ===== src/WireError.antt =====
-- wire_error.go: an error is sent as its text and, if it is a budget error, as data beside it.
pub mod Relay
use herrscher_transport.Prelude.{
  ℕ, Bool, String, Option, none, some, List, [], ◌∷◌, ◌==◌, if◌then◌else◌,
}
use herrscher_transport.Errors.{Error, Result, ok, err, remote, budget, as_budget}
use herrscher_transport.Codec.{Bytes, Wire, Codec}

abbrev pub wire_error_kind_budget : String
wire_error_kind_budget = "budget"

-- `content` is the field Data; empty data is left out of the JSON.
pub record WireError : Type 0 where
  pub kind : String
  pub content : Bytes

-- The codecs that errors travel by.
pub record ErrorWire (B : Type 0) : Type 0 where
  pub wire : Wire B
  pub open wire use *
  pub budget_codec : Codec B B
  pub wire_error_codec : Codec B WireError

module _ {B : Type 0} (E : ErrorWire B) where
  open E use {budget_codec, wire_error_codec}

  -- The payload, or nil where a marshalling failed.
  abbrev or_nil : Result B Bytes → Bytes
  or_nil (ok payload) = payload
  or_nil (err e) = []

  encode_content : Result B Bytes → Bytes
  encode_content (err e) = []
  encode_content (ok content) =
      or_nil
        (wire_error_codec.marshal (record { kind = wire_error_kind_budget; content = content }))

  encode_found : Option B → Bytes
  unfolding encode_content
  encode_found none = []
  encode_found (some b) = encode_content (budget_codec.marshal b)

  -- encodeWireError
  unfoldable pub encode_wire_error : Error B → Bytes
  unfolding encode_found as_budget
  encode_wire_error e = encode_found (as_budget e)

  budget_or_remote : String → Result B B → Error B
  budget_or_remote message (ok b) = budget b
  budget_or_remote message (err e) = remote message

  decode_wire : String → Result B WireError → Error B
  unfolding budget_or_remote
  decode_wire message (err e) = remote message
  decode_wire message (ok wire) =
      if wire.kind == wire_error_kind_budget
      then budget_or_remote message (budget_codec.unmarshal wire.content)
      else remote message

  decode_payload : String → Bytes → Error B
  unfolding decode_wire
  decode_payload message [] = remote message
  decode_payload message (b ∷ bs) = decode_wire message (wire_error_codec.unmarshal (b ∷ bs))

  -- decodeWireError
  unfoldable pub decode_wire_error : Bytes → String → Error B
  unfolding decode_payload
  decode_wire_error payload message = decode_payload message payload
