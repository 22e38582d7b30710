-- ===== src/Tgutil/Range/Bounds.antt =====
-- internal/tgutil/util.go: the bounds of the windows that `ParseRange` returns.
use thunder_go.Prelude.{ℕ, zero, suc, ◌≤◌, ◌<◌, ◌≡◌, refl, Option, none, some, [], ◌∷◌, arith}
use thunder_go.Prelude.Int.{negsuc, ℤ, pos}
use thunder_go.Prelude.Text.{codes, strip_prefix, trim_space, cut, Text}
use thunder_go.Prelude.Text.Decimal.{parse_int}
use thunder_go.Tgutil.Range.{
  first_range, halves, prefixed, spec_range, sized, parse_range, Range, range, suffix_range,
  start_range, window,
}

pub record Inside (size : ℤ) (r : Range) : Type 0 where
  pub ordered : r.start ≤ r.end
  pub bounded : (n : ℕ) × (size ≡ pos n) × (r.end < n)

abbrev Fits : ℕ → Range → Type 0
Fits n r = (r.start ≤ r.end) × (r.end < n)

suffix_range-Fits :
    (n : ℕ) (v : Option ℤ) (r : Range) → suffix_range (suc n) v ≡ range r → Fits (suc n) r
unfolding suffix_range
suffix_range-Fits n v r h = ground arith

start_range-Fits :
    (n : ℕ) (e : Text) (v : Option ℤ) (r : Range)
    → start_range (suc n) e v ≡ range r
    → Fits (suc n) r
unfolding start_range
start_range-Fits n e v r h = ground arith

window-Fits : (n : ℕ) (a b : Text) (r : Range) → window (suc n) a b ≡ range r → Fits (suc n) r
unfolding window
window-Fits n a b r h =
    ground (arith, suffix_range-Fits n (parse_int b) r, start_range-Fits n b (parse_int a) r)

halves-Fits :
    (n : ℕ) (c : Option (Text × Text)) (r : Range) → halves (suc n) c ≡ range r → Fits (suc n) r
unfolding halves
halves-Fits n none r h = cc
halves-Fits n (some (a, b)) r h = window-Fits n (trim_space a) (trim_space b) r h

spec_range-Fits : (n : ℕ) (s : Text) (r : Range) → spec_range (suc n) s ≡ range r → Fits (suc n) r
unfolding spec_range
spec_range-Fits n s r h = ground (arith, halves-Fits n (cut b'-' (first_range s (cut b',' s))) r)

prefixed-Fits :
    (n : ℕ) (o : Option Text) (r : Range) → prefixed (suc n) o ≡ range r → Fits (suc n) r
unfolding prefixed
prefixed-Fits n none r h = cc
prefixed-Fits n (some rest) r h = spec_range-Fits n (trim_space rest) r h

sized-Inside : (header : Text) (size : ℤ) (r : Range) → sized header size ≡ range r → Inside size r
unfolding sized
sized-Inside header (negsuc n) r h = cc
sized-Inside header (pos zero) r h = cc
sized-Inside header (pos (suc n)) r h =
    let f = prefixed-Fits n (strip_prefix (codes "bytes=") header) r h in
    record { ordered = f.0; bounded = (suc n, refl, f.1) }

-- A window that ParseRange returns has its ends in order and lies inside the file, whose size is
-- then positive, for every header and every size.
pub parse_range-Inside :
    (header : Text) (size : ℤ) (r : Range) → parse_range header size ≡ range r → Inside size r
unfolding parse_range
parse_range-Inside [] size r h = cc
parse_range-Inside (c ∷ header) size r h = sized-Inside (c ∷ header) size r h
