-- ===== src/Announce/Decimal.antt =====
-- strconv.AppendInt in base 10, which announce.go puts in front of the body that it authenticates.
use herrscher_transport.Prelude.{
  ℕ, zero, suc, ◌+◌, ◌-◌, ◌*◌, ◌/◌, ◌%◌, ◌≤◌, ◌<◌, ℤ, pos, negsuc, ◌≡◌, refl, ◌≢◌, List, [], ◌∷◌,
  ◌++◌, ltb, if◌then◌else◌, All, All-append, arith, ap, sym, ◌∙◌,
}

-- The digits, most significant first; the fuel is a bound on their number.
digits : ℕ → ℕ → List ℕ
digits zero n = []
digits (suc fuel) n =
    let higher = digits fuel (n / 10) in
    if ltb n 10 then (48 + n) ∷ [] else higher ++ (48 + n % 10) ∷ []

unfoldable pub decimal : ℕ → List ℕ
unfolding digits
decimal n = digits (suc n) n

-- AppendInt(nil, x, 10)
unfoldable pub append_int : ℤ → List ℕ
unfolding decimal
append_int (pos n) = decimal n
append_int (negsuc n) = b'-' ∷ decimal (suc n)

-- What a row of digits stands for, read from the left.
value_from : ℕ → List ℕ → ℕ
value_from acc [] = acc
value_from acc (d ∷ ds) = value_from (acc * 10 + (d - 48)) ds

value_from-append :
    (acc : ℕ) (ds : List ℕ) (d : ℕ)
    → value_from acc (ds ++ d ∷ []) ≡ value_from acc ds * 10 + (d - 48)
unfolding value_from
value_from-append acc [] d = refl
value_from-append acc (e ∷ ds) d = value_from-append (acc * 10 + (e - 48)) ds d

-- With fuel above the number no digit is lost.
value_from-digits : (fuel n : ℕ) → n < fuel → value_from 0 (digits fuel n) ≡ n
unfolding value_from digits
value_from-digits zero n h = absurd (omega arith)
value_from-digits (suc fuel) n h = ground (
  arith,
  value_from-append 0 (digits fuel (n / 10)) (48 + n % 10),
  value_from-digits fuel (n / 10),
)

pub decimal-injective : (m n : ℕ) → decimal m ≡ decimal n → m ≡ n
unfolding decimal
decimal-injective m n e =
    sym (value_from-digits (suc m) m (omega arith))
    ∙ ap (value_from 0) e
    ∙ value_from-digits (suc n) n (omega arith)

abbrev IsDigit : ℕ → Type 0
IsDigit d = (48 ≤ d) × (d ≤ 57)

digits-IsDigit : (fuel n : ℕ) → All IsDigit (digits fuel n)
unfolding digits
digits-IsDigit zero n = tt
digits-IsDigit (suc fuel) n = ground (
  arith,
  All-append IsDigit (digits fuel (n / 10)) ((48 + n % 10) ∷ []) (digits-IsDigit fuel (n / 10)),
)

-- A digit is no line feed and no sign.
Inline-digits : (ds : List ℕ) → All IsDigit ds → All (λ d. d ≢ 10) ds
Inline-digits [] h = tt
Inline-digits (d ∷ ds) (h, hs) = ((λ e. omega arith), Inline-digits ds hs)

-- A written integer holds no line feed.
pub append_int-no_line_feed : (x : ℤ) → All (λ d. d ≢ 10) (append_int x)
unfolding append_int
append_int-no_line_feed (pos n) = Inline-digits _ (digits-IsDigit (suc n) n)
append_int-no_line_feed (negsuc n) =
    ((λ e. omega arith), Inline-digits _ (digits-IsDigit (suc (suc n)) (suc n)))

-- A row of digits does not begin with the sign.
unsigned : (ds rest : List ℕ) → All IsDigit ds → ds ≢ b'-' ∷ rest
unsigned [] rest h e = cc
unsigned (d ∷ ds) rest (h, hs) e = ground arith

-- Different integers are written differently.
pub append_int-injective : (x y : ℤ) → append_int x ≡ append_int y → x ≡ y
unfolding append_int
append_int-injective (pos m) (pos n) e = ap pos (decimal-injective m n e)
append_int-injective (pos m) (negsuc n) e = absurd (unsigned _ _ (digits-IsDigit (suc m) m) e)
append_int-injective (negsuc m) (pos n) e = absurd (unsigned _ _ (digits-IsDigit (suc n) n) (sym e))
append_int-injective (negsuc m) (negsuc n) e =
    let e' : suc m ≡ suc n = decimal-injective (suc m) (suc n) (cc) in ap negsuc (omega arith)
