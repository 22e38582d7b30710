-- ===== src/Tgutil/Range/Header.antt =====
-- internal/tgutil/util.go: `ParseRange` on the headers of one range, as RFC 7233 writes them.
use thunder_go.Prelude.{
  ℕ, zero, suc, ◌-◌, ◌≤◌, min, ◌≡◌, refl, ap, ◌∙◌, false, ◌||◌, some, [], ◌∷◌, ◌++◌, arith, All,
  All-append, All-map, ltb, leb, ◌==◌, if◌then◌else◌,
}
use thunder_go.Prelude.Text.{Text, codes, trim_space, is_space, cut}
use thunder_go.Prelude.Text.Laws.{strip_prefix-append, cut-append, cut-eq-none, trim_space_id}
use thunder_go.Prelude.Text.Decimal.{
  is_empty-append_cons, IsDigit, IsDigits, print_nat, int64_max, print_nat-IsDigits,
  parse_int-print_nat, is_empty-print_nat,
}
use thunder_go.Tgutil.Range.{
  malformed, suffix_range, start_range, prefixed, range, unsatisfiable, err, pos, parse_range,
  window, halves, spec_range, first_range,
}

-- What is neither white space, nor a comma.
abbrev IsPlain : ℕ → Type 0
IsPlain c = (is_space c ≡ false) × ((c ≡ b',') → ⊥)

digit-IsPlain : (c : ℕ) → IsDigit c → IsPlain c
unfolding is_space
digit-IsPlain c h = (ground arith, λ e. omega arith)

module _ (a b : Text) (da : IsDigits a) (db : IsDigits b) where
  dashed-IsPlain : All IsPlain (a ++ b'-' ∷ b)
  unfolding is_space
  dashed-IsPlain =
      All-append IsPlain a (b'-' ∷ b) (All-map IsDigit IsPlain digit-IsPlain a da)
        ((refl, λ e. omega arith), All-map IsDigit IsPlain digit-IsPlain b db)

  spaceless : (s : Text) → IsDigits s → trim_space s ≡ s
  unfolding is_space
  spaceless s d =
      trim_space_id s (All-map IsDigit (λ c. is_space c ≡ false) (λ c h. ground arith) s d)

  halves-dashed : (n : ℕ) → halves n (cut b'-' (a ++ b'-' ∷ b)) ≡ window n a b
  unfolding halves
  halves-dashed n = rw (
    cut-append b'-' a b (All-map IsDigit (λ c. (c ≡ b'-') → ⊥) (λ c h e. omega arith) a da),
    spaceless a da,
    spaceless b db,
  )

abbrev pub dashed : ℕ → ℕ → Text
dashed a b = print_nat a ++ b'-' ∷ print_nat b

abbrev pub closed_header : ℕ → ℕ → Text
closed_header a b = codes "bytes=" ++ dashed a b

module _ (a b : Text) (da : IsDigits a) (db : IsDigits b) where
  parse_range-halves :
      (n : ℕ) → parse_range (codes "bytes=" ++ (a ++ b'-' ∷ b)) (pos (suc n)) ≡ window (suc n) a b
  unfolding parse_range spec_range first_range is_space
  parse_range-halves n =
      ap (prefixed (suc n)) (strip_prefix-append (codes "bytes=") (a ++ b'-' ∷ b))
      ∙ ap (spec_range (suc n)) (
          trim_space_id (a ++ b'-' ∷ b)
            (All-map IsPlain (λ c. is_space c ≡ false) (λ c h. h.0) _ (dashed-IsPlain a b da db)))
      ∙ rw
          (
            is_empty-append_cons a b'-' b,
            cut-eq-none b',' (a ++ b'-' ∷ b)
                (All-map IsPlain (λ c. (c ≡ b',') → ⊥) (λ c h. h.1) _ (dashed-IsPlain a b da db)),
            is_empty-append_cons a b'-' b,
          )
          (halves-dashed a b da db (suc n))

window-printed :
    (a b n : ℕ)
    → a ≤ int64_max
    → b ≤ int64_max
    → window (suc n) (print_nat a) (print_nat b) ≡ (
        if leb (suc n) a || ltb b a
        then err unsatisfiable
        else range (record { start = a; end = min b n }))
unfolding window
window-printed a b n ha hb =
    rw
      (
        is_empty-print_nat a,
        parse_int-print_nat a ha,
        start_range,
        is_empty-print_nat b,
        parse_int-print_nat b hb,
      )
      (ground arith)

-- For "bytes=A-B", whose ends an int64 holds, and a file of N > 0 bytes: the range is refused as
-- unsatisfiable exactly when A lies past the end or B before A, and else is [A, min B (N - 1)].
pub parse_range-closed :
    (a b n : ℕ)
    → a ≤ int64_max
    → b ≤ int64_max
    → parse_range (closed_header a b) (pos (suc n)) ≡ (
        if leb (suc n) a || ltb b a
        then err unsatisfiable
        else range (record { start = a; end = min b n }))
unfolding parse_range
parse_range-closed a b n ha hb =
    parse_range-halves (print_nat a) (print_nat b) (print_nat-IsDigits a) (print_nat-IsDigits b) n
    ∙ window-printed a b n ha hb

abbrev pub suffix_header : ℕ → Text
suffix_header k = codes "bytes=-" ++ print_nat k

abbrev pub open_header : ℕ → Text
open_header a = codes "bytes=" ++ (print_nat a ++ b'-' ∷ [])

-- "bytes=-K", of a file of N > 0 bytes: K = 0 is malformed, and any other K that an int64 holds
-- gives the last min K N bytes.
parse_range-suffix :
    (k n : ℕ)
    → k ≤ int64_max
    → parse_range (suffix_header k) (pos (suc n)) ≡ (
        if k == 0 then err malformed else range (record { start = suc n - min k (suc n); end = n }))
unfolding window suffix_range
parse_range-suffix k n h =
    parse_range-halves [] (print_nat k) tt (print_nat-IsDigits k) n
    ∙ rw (is_empty-print_nat k, parse_int-print_nat k h) (suffix_printed k)
  where
    suffix_printed :
        (m : ℕ)
        → suffix_range (suc n) (some (pos m)) ≡ (
            if m == 0
            then err malformed
            else range (record { start = suc n - min m (suc n); end = n }))
    suffix_printed zero = refl
    suffix_printed (suc m) = ground arith

-- "bytes=A-", of a file of N > 0 bytes: all from A on, or unsatisfiable if A lies past the end.
parse_range-open :
    (a n : ℕ)
    → a ≤ int64_max
    → parse_range (open_header a) (pos (suc n))
      ≡ (if leb (suc n) a then err unsatisfiable else range (record { start = a; end = n }))
unfolding window start_range
parse_range-open a n h =
    parse_range-halves (print_nat a) [] (print_nat-IsDigits a) tt n
    ∙ rw (is_empty-print_nat a, parse_int-print_nat a h) (ground arith)
