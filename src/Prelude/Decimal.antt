-- ===== src/Prelude/Decimal.antt =====
-- `strconv.FormatInt(n, 10)` for the identifiers of the database, which are not negative, and text
-- literals.
use Prim.Native.Nat.{ℕ, zero, suc, ◌+◌, ◌-◌, ◌*◌, ◌/◌, ◌%◌, ◌<◌, ◌≤◌}
use Prim.Native.Char.{code}
use Prim.Native.String.{String}
use mathlib.Core.Path.{◌≡◌, refl, sym, ◌∙◌, ap}
use mathlib.Core.Logic.{inl, inr}
use mathlib.Core.List.{[], ◌∷◌}
use mathlib.Core.Bool.{Bool, true, false, ◌&&◌}
use mathlib.Core.Option.{Option, none, some}
use mathlib.Core.Path.{subst}
use mamechat.Prelude.Int.{ℤ, pos, negsuc}
use native.Mathlib.Omega.{arith}
use mamechat.Prelude.Tests.{if◌then◌else◌, ltb, leb, ◌==◌, Bool-cases}
use mamechat.Prelude.Lists.{Text}

-- The code points of a literal.
abbrev pub codes : String → Text
codes String.[] = []
codes (String.◌∷◌ c s) = code c ∷ codes s

decimal_from : ℕ → ℕ → Text → Text
decimal_from zero n digits = digits
decimal_from (suc f) n digits =
    let rest = decimal_from f (n / 10) ((48 + n % 10) ∷ digits) in
    if ltb n 10 then (48 + n) ∷ digits else rest

unfoldable pub decimal : ℕ → Text
unfolding decimal_from
decimal n = decimal_from (suc n) n []

-- The number that a list of digits stands for, after the digits of `acc`.
pub value_from : ℕ → Text → ℕ
value_from acc [] = acc
value_from acc (c ∷ cs) = value_from (acc * 10 + (c - 48)) cs

value_from-decimal_from :
    (f n : ℕ) (digits : Text) → n < f → value_from 0 (decimal_from f n digits) ≡ value_from n digits
unfolding decimal_from value_from
value_from-decimal_from zero n digits h = elim h [ ]
value_from-decimal_from (suc f) n digits h = elim (Bool-cases (ltb n 10)) [
  | inl small ↦ rw small (ap (λ k. value_from k digits) (omega arith))
  | inr large ↦ rw large (
      value_from-decimal_from f (n / 10) ((48 + n % 10) ∷ digits) (ground arith)
      ∙ ap (λ k. value_from k digits) (omega arith))
]

pub value_from-decimal : (n : ℕ) → value_from 0 (decimal n) ≡ n
unfolding decimal
value_from-decimal n =
    value_from-decimal_from (suc n) n [] (omega arith) ∙ (unfold value_from in refl)

pub decimal-injective : (m n : ℕ) → decimal m ≡ decimal n → m ≡ n
decimal-injective m n e = sym (value_from-decimal m) ∙ ap (value_from 0) e ∙ value_from-decimal n

abbrev pub is_digit : ℕ → Bool
is_digit c = leb 48 c && leb c 57

-- The value of a list of digits after that of `acc`.
digits_value : ℕ → Text → Option ℕ
digits_value acc [] = some acc
digits_value acc (c ∷ s) =
    let rest = digits_value (acc * 10 + (c - 48)) s in if is_digit c then rest else none

abbrev pub max_int64 : ℕ
max_int64 = 9223372036854775807

positive : Option ℕ → Option ℤ
positive none = none
positive (some n) = if leb n max_int64 then some (pos n) else none

negative : Option ℕ → Option ℤ
negative none = none
negative (some n) =
    if n == 0 then some (pos 0) else if leb n (max_int64 + 1) then some (negsuc (n - 1)) else none

-- The digits after the sign, of which there must be one.
magnitude : Text → Option ℕ
magnitude [] = none
magnitude (c ∷ s) = digits_value 0 (c ∷ s)

-- `strconv.ParseInt(s, 10, 64)`; none is an error.
unfoldable pub parse_int : Text → Option ℤ
unfolding digits_value magnitude positive negative
parse_int [] = none
parse_int (c ∷ s) =
    if c == 43
    then positive (magnitude s)
    else if c == 45
    then negative (magnitude s)
    else positive (magnitude (c ∷ s))

-- Digits only, at least one.
abbrev pub Digits : Text → Type 0
Digits [] = Unit
Digits (c ∷ s) = (is_digit c ≡ true) × Digits s

digits_value-value_from :
    (acc : ℕ) (s : Text) → Digits s → digits_value acc s ≡ some (value_from acc s)
unfolding digits_value value_from
digits_value-value_from acc [] d = refl
digits_value-value_from acc (c ∷ s) (d, ds) =
    rw d (digits_value-value_from (acc * 10 + (c - 48)) s ds)

decimal_from-Digits :
    (f n : ℕ) (s : Text)
    → n < f
    → Digits s
    → (c : ℕ) × (t : Text) × (decimal_from f n s ≡ c ∷ t) × Digits (c ∷ t)
unfolding decimal_from
decimal_from-Digits zero n s h d = elim h [ ]
decimal_from-Digits (suc f) n s h d = elim (Bool-cases (ltb n 10)) [
  | inl small ↦ rw small (48 + n, s, refl, (ground arith, d))
  | inr large ↦
      rw large (decimal_from-Digits f (n / 10) ((48 + n % 10) ∷ s) (ground arith) (ground arith, d))
]

parse_int-Digits :
    (c : ℕ) (t : Text)
    → Digits (c ∷ t)
    → value_from 0 (c ∷ t) ≤ max_int64
    → parse_int (c ∷ t) ≡ some (pos (value_from 0 (c ∷ t)))
unfolding parse_int magnitude positive
parse_int-Digits c t d h =
    let plus : (c == 43) ≡ false = ground arith in
    let minus : (c == 45) ≡ false = ground arith in
    rw (plus, minus) (ap positive (digits_value-value_from 0 (c ∷ t) d) ∙ ground arith)

-- An identifier that was written in decimal is parsed to itself, if it is a 64-bit integer.
pub parse_int-decimal : (n : ℕ) → n ≤ max_int64 → parse_int (decimal n) ≡ some (pos n)
parse_int-decimal n h =
    let (c, t, e, d) = decimal_from-Digits (suc n) n [] (omega arith) tt in
    let written : decimal n ≡ c ∷ t = unfold decimal in e in
    let value : value_from 0 (c ∷ t) ≡ n = ap (value_from 0) (sym written) ∙ value_from-decimal n in
    ap parse_int written
    ∙ parse_int-Digits c t d (subst (λ k. k ≤ max_int64) (sym value) h)
    ∙ ap (λ k. some (pos k)) value

-- A number is written in digits.
pub decimal-Digits : (n : ℕ) → Digits (decimal n)
decimal-Digits n =
    let (c, t, e, d) = decimal_from-Digits (suc n) n [] (omega arith) tt in
    let written : decimal n ≡ c ∷ t = unfold decimal in e in subst Digits (sym written) d
