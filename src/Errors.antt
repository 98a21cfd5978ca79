-- ===== src/Errors.antt =====
-- errors.go and the error values of wire_error.go: Go's `error` as one data type. A sentinel is a
-- constructor, an error struct is a constructor with its fields; `wrap`, `noted` and `wrap_both` are fmt.Errorf with "…: %w",
-- "%w: …" and "%w: %w".
-- `Budget` stands for contracts.BudgetError, which is not under this repository; `external` is any
-- error made by a package outside it, known by its text only.
pub mod Format
pub mod Notice
use herrscher_transport.Prelude.{
  ◌≡◌, refl, ◌⊎◌, inl, inr, ℕ, String, List, Option, none, some, Bool, true, false, ◌||◌,
}

pub data Error (B : Type 0) : Type 0 where
  invalid_frame tls_not_configured port_registered plugin_service_registered nil_hook : Error B
  no_announce_key weak_announce_key unauthenticated_announcement stale_announcement : Error B
  oversized_announcement malformed_announcement unusable_announcement addr_refused : Error B
  backend_stream_not_responder unexpected_eof eof : Error B
  unknown_port : (port : String) → Error B
  unknown_method : (service method : String) → Error B
  arg_count : (want got : ℕ) → Error B
  plaintext_dial : (addr : String) → Error B
  tls_half_configured : (missing : List String) → Error B
  ca_file : (file : String) → Error B
  remote : (message : String) → Error B
  budget : B → Error B
  external : (message : String) → Error B
  wrap : (context : String) → Error B → Error B
  noted : Error B → (note : String) → Error B
  wrap_both : Error B → Error B → Error B

-- A call's value or its error.
pub data Result {ℓ} (B : Type 0) (A : Type ℓ) : Type ℓ where
  ok : A → Result B A
  err : Error B → Result B A

infixl 5 ◌>>=◌
abbrev pub ◌>>=◌ {ℓ κ} :
    {B : Type 0} {A : Type ℓ} {C : Type κ} → Result B A → (A → Result B C) → Result B C
ok a >>= f = f a
err e >>= f = err e

-- `if err != nil { return …, fmt.Errorf("context: %w", err) }`
abbrev pub wrapped {ℓ} : {B : Type 0} {A : Type ℓ} → String → Result B A → Result B A
wrapped context (ok a) = ok a
wrapped context (err e) = err (wrap context e)

-- The parts of a success.
pub bind-eq-ok {ℓ κ} :
    {B : Type 0} {A : Type ℓ} {C : Type κ} (m : Result B A) (f : A → Result B C) {c : C}
    → (m >>= f) ≡ ok c
    → (a : A) × (m ≡ ok a) × (f a ≡ ok c)
bind-eq-ok (ok a) f h = (a, refl, h)
bind-eq-ok (err e) f h = cc

pub wrapped-eq-ok {ℓ} :
    {B : Type 0} {A : Type ℓ} (context : String) (r : Result B A) {a : A}
    → wrapped context r ≡ ok a
    → r ≡ ok a
wrapped-eq-ok context (ok a) h = h
wrapped-eq-ok context (err e) h = cc

pub Result-cases {ℓ} :
    {B : Type 0} {A : Type ℓ} (r : Result B A)
    → ((a : A) × (r ≡ ok a)) ⊎ ((e : Error B) × (r ≡ err e))
Result-cases (ok a) = inl (a, refl)
Result-cases (err e) = inr (e, refl)

pub ok-injective : {B A : Type 0} {a b : A} → ◌≡◌ {A = Result B A} (ok a) (ok b) → a ≡ b
ok-injective p = cc

module _ {B : Type 0} where
  -- `first` unless there is none.
  abbrev or_else : Option B → Option B → Option B
  or_else (some b) other = some b
  or_else none other = other

  -- errors.As(err, &budget): the first budget error of the chain, in depth-first order.
  unfoldable pub as_budget : Error B → Option B
  as_budget (budget b) = some b
  as_budget (wrap context e) = as_budget e
  as_budget (noted e note) = as_budget e
  as_budget (wrap_both e f) = or_else (as_budget e) (as_budget f)
  as_budget _ = none

  -- errors.Is(err, io.EOF)
  unfoldable pub is_eof : Error B → Bool
  is_eof eof = true
  is_eof (wrap context e) = is_eof e
  is_eof (noted e note) = is_eof e
  is_eof (wrap_both e f) = is_eof e || is_eof f
  is_eof _ = false
