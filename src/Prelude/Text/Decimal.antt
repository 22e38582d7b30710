-- ===== src/Prelude/Text/Decimal.antt =====
-- Decimal numbers: fmt's %d, strconv.FormatInt, and strconv.ParseInt with base 10 and 64 bits.
use native.Mathlib.Numerals.{add-one}
use thunder_go.Prelude.{
  ℕ, zero, suc, ◌+◌, ◌-◌, ◌*◌, ◌/◌, ◌%◌, ◌≤◌, ◌<◌, ◌≡◌, refl, sym, ap, ◌∙◌, subst, ◌≢◌, inl, inr,
  false, Option, none, some, [], ◌∷◌, ◌++◌, append-nil, append_assoc, arith, All, All-append, ltb,
  leb, ◌==◌, if◌then◌else◌, tests, Bool-cases,
}
use thunder_go.Prelude.Int.{ℤ, pos, negsuc}
use thunder_go.Prelude.Text.{is_empty, Text, is_digit}

-- The least significant digit last; `fuel` bounds the number of digits.
pub print_from : ℕ → ℕ → Text
print_from zero n = []
print_from (suc f) n =
    let rest = print_from f (n / 10) ++ (48 + n % 10) ∷ [] in
    if ltb n 10 then (48 + n) ∷ [] else rest

-- A number has at most `n + 1` digits.
unfoldable pub print_nat : ℕ → Text
unfolding print_from
print_nat n = print_from (n + 1) n

unfoldable pub print_int : ℤ → Text
unfolding print_nat
print_int (pos n) = print_nat n
print_int (negsuc n) = b'-' ∷ print_nat (suc n)

unfoldable pub parse_digits : ℕ → Text → Option ℕ
unfolding is_digit
parse_digits acc [] = some acc
parse_digits acc (c ∷ s) = if is_digit c then parse_digits (acc * 10 + (c - 48)) s else none

-- One digit at least.
unfoldable pub parse_nat : Text → Option ℕ
unfolding parse_digits
parse_nat [] = none
parse_nat (c ∷ s) = parse_digits 0 (c ∷ s)

abbrev pub int64_max : ℕ
int64_max = 9223372036854775807

abbrev positive_int : Option ℕ → Option ℤ
positive_int none = none
positive_int (some n) = if leb n int64_max then some (pos n) else none

abbrev negated : ℕ → Option ℤ
negated zero = some (pos 0)
negated (suc n) = if leb n int64_max then some (negsuc n) else none

abbrev negative_int : Option ℕ → Option ℤ
negative_int none = none
negative_int (some n) = negated n

unfoldable pub parse_int : Text → Option ℤ
unfolding parse_nat
parse_int [] = none
parse_int (c ∷ s) =
    if c == b'-'
    then negative_int (parse_nat s)
    else if c == b'+'
    then positive_int (parse_nat s)
    else positive_int (parse_nat (c ∷ s))

abbrev pub IsDigit : ℕ → Type 0
IsDigit c = (48 ≤ c) × (c ≤ 57)

abbrev pub IsDigits : Text → Type 0
IsDigits = All IsDigit

print_from-IsDigits : (f n : ℕ) → IsDigits (print_from f n)
unfolding print_from
print_from-IsDigits zero n = tt
print_from-IsDigits (suc f) n = elim (Bool-cases (ltb n 10)) [
  | inl small ↦ rw small ((omega tests, omega tests), tt)
  | inr large ↦
      rw large (All-append _ _ _ (print_from-IsDigits f (n / 10)) ((omega arith, omega arith), tt))
]

pub print_nat-IsDigits : (n : ℕ) → IsDigits (print_nat n)
unfolding print_nat
print_nat-IsDigits n = print_from-IsDigits (n + 1) n

-- Reading the digits of a number brings it into the accumulator.
parse_digits-print_from :
    (f n : ℕ) (s : Text) → n < f → parse_digits 0 (print_from f n ++ s) ≡ parse_digits n s
unfolding print_from parse_digits
parse_digits-print_from zero n s h = absurd (omega arith)
parse_digits-print_from (suc f) n s h = elim (Bool-cases (ltb n 10)) [
  | inl small ↦ rw small (ground arith)
  | inr large ↦
      rw (large, append_assoc, parse_digits-print_from f (n / 10) ((48 + n % 10) ∷ s) (omega tests))
        (ground arith)
]

pub parse_digits-print_nat : (n : ℕ) → parse_digits 0 (print_nat n) ≡ some n
unfolding print_nat parse_digits
parse_digits-print_nat n =
    rw (← append-nil (print_from (n + 1) n), parse_digits-print_from (n + 1) n [] (omega arith))

parse_int-IsDigits :
    (s : Text) → IsDigits s → is_empty s ≡ false → parse_int s ≡ positive_int (parse_digits 0 s)
unfolding parse_int is_empty
parse_int-IsDigits [] h e = cc
parse_int-IsDigits (c ∷ s) h e = ground (arith, h.0)

pub is_empty-append_cons : (s : Text) (c : ℕ) (t : Text) → is_empty (s ++ c ∷ t) ≡ false
unfolding is_empty
is_empty-append_cons [] c t = refl
is_empty-append_cons (d ∷ s) c t = refl

pub is_empty-print_nat : (n : ℕ) → is_empty (print_nat n) ≡ false
unfolding print_nat
is_empty-print_nat n = rw add-one (
    unfold print_from in
    ground (
      arith,
      is_empty-append_cons (print_from n (n / 10)) (48 + n % 10) [],
      is_empty-append_cons [] (48 + n) [],
    ))

-- strconv.ParseInt of strconv.FormatInt, for the numbers that an int64 holds.
pub parse_int-print_nat : (n : ℕ) → n ≤ int64_max → parse_int (print_nat n) ≡ some (pos n)
parse_int-print_nat n h =
    rw
      (
        parse_int-IsDigits (print_nat n) (print_nat-IsDigits n) (is_empty-print_nat n),
        parse_digits-print_nat n,
      )
      (ground arith)

print_nat-injective : (a b : ℕ) → print_nat a ≡ print_nat b → a ≡ b
print_nat-injective a b h =
    let e : some a ≡ some b =
      sym (parse_digits-print_nat a) ∙ (ap (λ s. parse_digits 0 s) h ∙ parse_digits-print_nat b) in
    cc e

not_minus : (n : ℕ) (s : Text) → print_nat n ≢ b'-' ∷ s
not_minus n s h = omega (arith, (subst (λ t. IsDigits t) h (print_nat-IsDigits n)).0)

pub print_int-injective : (a b : ℤ) → print_int a ≡ print_int b → a ≡ b
unfolding print_int
print_int-injective (pos a) (pos b) h = ap pos (print_nat-injective a b h)
print_int-injective (pos a) (negsuc b) h = absurd (not_minus a (print_nat (suc b)) h)
print_int-injective (negsuc a) (pos b) h = absurd (not_minus b (print_nat (suc a)) (sym h))
print_int-injective (negsuc a) (negsuc b) h =
    let e : print_nat (suc a) ≡ print_nat (suc b) = cc h in
    let s : suc a ≡ suc b = print_nat-injective (suc a) (suc b) e in ap negsuc (omega (arith, s))
