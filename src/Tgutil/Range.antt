-- ===== src/Tgutil/Range.antt =====
-- internal/tgutil/util.go: `ParseRange`, `ContentRangeValue` and `UnsatisfiableContentRange`.
pub mod Bounds
pub mod Header
use thunder_go.Prelude.{
  ℕ, zero, suc, ◌+◌, ◌-◌, ◌++◌, Bool, true, false, Option, none, some, [], ◌∷◌, ltb, leb,
  if◌then◌else◌,
}
use thunder_go.Prelude.Int.{ℤ, pos, negsuc}
use thunder_go.Prelude.Text.{Text, codes, trim_space, strip_prefix, cut, is_empty}
use thunder_go.Prelude.Text.Decimal.{parse_int, print_nat, print_int}

-- A byte window of a file, both ends included; no code path gives it a negative end.
pub record Range : Type 0 where
  pub start : ℕ
  pub end : ℕ

pub data RangeError : Type 0 where
  malformed unsatisfiable : RangeError

-- `(Range, true, nil)`, `(Range{}, false, nil)` and `(Range{}, false, err)`.
pub data RangeResult : Type 0 where
  absent : RangeResult
  range : Range → RangeResult
  err : RangeError → RangeResult

-- bytes=-N, of a file of `size` bytes: the last N bytes.
suffix_range : ℕ → Option ℤ → RangeResult
suffix_range size none = err malformed
suffix_range size (some (negsuc n)) = err malformed
suffix_range size (some (pos zero)) = err malformed
suffix_range size (some (pos (suc n))) =
    let m = if ltb size (suc n) then size else suc n in
    range (record { start = size - m; end = size - 1 })

end_of : ℕ → ℕ → Option ℤ → RangeResult
end_of size start none = err unsatisfiable
end_of size start (some (negsuc n)) = err unsatisfiable
end_of size start (some (pos e)) =
    if ltb e start
    then err unsatisfiable
    else range (record { start = start; end = if leb size e then size - 1 else e })

start_range : ℕ → Text → Option ℤ → RangeResult
unfolding end_of is_empty
start_range size end_str none = err malformed
start_range size end_str (some (negsuc n)) = err malformed
start_range size end_str (some (pos start)) =
    if leb size start
    then err unsatisfiable
    else if is_empty end_str
    then range (record { start = start; end = size - 1 })
    else end_of size start (parse_int end_str)

-- The two trimmed halves of the first range.
window : ℕ → Text → Text → RangeResult
unfolding suffix_range start_range
window size start_str end_str =
    if is_empty start_str
    then if is_empty end_str then err malformed else suffix_range size (parse_int end_str)
    else start_range size end_str (parse_int start_str)

halves : ℕ → Option (Text × Text) → RangeResult
unfolding window
halves size none = err malformed
halves size (some (a, b)) = window size (trim_space a) (trim_space b)

-- The text before the first comma, trimmed again if there is one.
first_range : Text → Option (Text × Text) → Text
first_range spec none = spec
first_range spec (some (a, b)) = trim_space a

spec_range : ℕ → Text → RangeResult
unfolding first_range halves
spec_range size spec =
    if is_empty spec
    then err malformed
    else let one = first_range spec (cut b',' spec) in
      if is_empty one then err malformed else halves size (cut b'-' one)

prefixed : ℕ → Option Text → RangeResult
unfolding spec_range
prefixed size none = err malformed
prefixed size (some rest) = spec_range size (trim_space rest)

sized : Text → ℤ → RangeResult
unfolding prefixed
sized header (negsuc n) = err unsatisfiable
sized header (pos zero) = err unsatisfiable
sized header (pos (suc n)) = prefixed (suc n) (strip_prefix (codes "bytes=") header)

unfoldable pub parse_range : Text → ℤ → RangeResult
unfolding sized
parse_range [] size = absent
parse_range (c ∷ header) size = sized (c ∷ header) size

unfoldable pub content_range_value : Range → ℤ → Text
content_range_value r total =
    codes "bytes " ++ (print_nat r.start ++ (b'-' ∷ (print_nat r.end ++ (b'/' ∷ print_int total))))

unfoldable pub unsatisfiable_content_range : ℤ → Text
unsatisfiable_content_range total = codes "bytes */" ++ print_int total
