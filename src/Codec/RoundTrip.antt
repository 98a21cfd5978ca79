-- ===== src/Codec/RoundTrip.antt =====
-- codec.go: what decodeArgs makes of a payload.
use herrscher_transport.Prelude.{
  ℕ, suc, ◌≡◌, refl, ap, true, List, [], ◌∷◌, length, nat_eq_iff, All,
}
use herrscher_transport.Errors.{ok}
use herrscher_transport.Codec.{
  Bytes, Wire, Codec, Slot, Args, marshal_each, encode_args, unmarshal_each, decode_args,
}

-- The value survives its codec: it is marshalled to JSON, and that is unmarshalled to it.
abbrev pub Carries : {B A : Type 0} → Wire B → Codec B A → A → Type 0
Carries W c a = (b : Bytes) × (c.marshal a ≡ ok b) × (W.is_json b ≡ true) × (c.unmarshal b ≡ ok a)

abbrev pub CarriesAll : {B : Type 0} → Wire B → (cs : List (Slot B)) → Args cs → Type 0
CarriesAll W [] vals = Unit
CarriesAll W (c ∷ cs) vals = Carries W c.codec vals.0 × CarriesAll W cs vals.1

-- An array of JSON texts is cut into the same texts.
pub record KeepsElements {B : Type 0} (W : Wire B) : Type 0 where
  pub elements-array :
      (raw : List Bytes) → All (λ b. W.is_json b ≡ true) raw → W.elements (W.array raw) ≡ ok raw

module _ {B : Type 0} (W : Wire B) where
  -- The raw elements that a tuple is marshalled to, which are unmarshalled to it again.
  marshal_each_carried :
      (cs : List (Slot B)) (vals : Args cs)
      → CarriesAll W cs vals
      → (raw : List Bytes) × (marshal_each W cs vals ≡ ok raw)
        × (length raw ≡ length cs)
        × All (λ b. W.is_json b ≡ true) raw
        × ((i : ℕ) → unmarshal_each W i cs raw ≡ ok vals)
  unfolding marshal_each unmarshal_each
  marshal_each_carried [] vals h = ([], refl, refl, tt, λ i. refl)
  marshal_each_carried (c ∷ cs) vals ((b, m, j, u), h) =
      let (raw, ms, len, js, us) = marshal_each_carried cs vals.1 h in
      (b ∷ raw, rw (m, ms), ap suc len, (j, js), λ i. rw (u, us (suc i)))

  -- A tuple whose values survive their codecs is encoded, and decodes to itself.
  pub encode_args_carried :
      KeepsElements W
      → (cs : List (Slot B)) (vals : Args cs) → CarriesAll W cs vals
      → (payload : Bytes) × (encode_args W cs vals ≡ ok payload)
        × (decode_args W cs payload ≡ ok vals)
  unfolding encode_args decode_args
  encode_args_carried laws cs vals h =
      let (raw, ms, len, js, us) = marshal_each_carried cs vals h in
      (
        W.array raw,
        rw ms,
        rw (laws.elements-array raw js) (rw ((nat_eq_iff (length raw) (length cs)).1 len) (us 0)),
      )
