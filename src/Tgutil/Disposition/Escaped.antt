-- ===== src/Tgutil/Disposition/Escaped.antt =====
-- internal/tgutil/util.go: the two forms of a name in `SanitizeForDisposition`.
use thunder_go.Prelude.{
  ℕ, zero, suc, ◌+◌, ◌-◌, ◌*◌, ◌/◌, ◌%◌, ◌≤◌, ◌<◌, ◌≡◌, refl, ap, ◌≢◌, inl, inr, true, false, [],
  ◌∷◌, arith, All, ltb, ◌==◌, if◌then◌else◌, Bool-cases,
}
use thunder_go.Prelude.Text.{Text, is_upper, is_lower, is_digit}
use thunder_go.Tgutil.Disposition.{
  plain, ascii_from, extra, is_attr_char, member, hex_digit, percent_encode,
}

unhex : ℕ → ℕ
unhex c = if ltb c 58 then c - 48 else c - 87

pair : Text → ℕ
unfolding unhex
pair (a ∷ b ∷ s) = unhex a * 16 + unhex b
pair s = 0

-- How a client undoes the escapes, with characters left to skip.
pub percent_decode : ℕ → Text → Text
unfolding pair
percent_decode k [] = []
percent_decode (suc k) (c ∷ s) = percent_decode k s
percent_decode zero (c ∷ s) =
    let plain_rest = percent_decode 0 s in
    let rest = percent_decode 2 s in if c == b'%' then pair s ∷ rest else c ∷ plain_rest

unhex-hex_digit : (n : ℕ) → n < 16 → unhex (hex_digit n) ≡ n
unfolding unhex hex_digit
unhex-hex_digit n h = ground arith

not_percent : (c : ℕ) → is_attr_char c ≡ true → (c == b'%') ≡ false
unfolding is_attr_char is_lower is_upper is_digit member
not_percent c h = ground arith

-- The extended form of a name, without its charset, decodes to the name.
pub percent_decode-percent_encode :
    (s : Text) → All (λ c. c < 256) s → percent_decode 0 (percent_encode s) ≡ s
unfolding percent_decode percent_encode
percent_decode-percent_encode [] h = refl
percent_decode-percent_encode (c ∷ s) h = elim (Bool-cases (is_attr_char c)) [
  | inl e ↦ rw (e, not_percent c e, percent_decode-percent_encode s h.1)
  | inr e ↦
      rw
        (
          e,
          unhex-hex_digit (c / 16) (omega (arith, h.0)),
          unhex-hex_digit (c % 16) (omega arith),
          percent_decode-percent_encode s h.1,
        )
        (ap (λ d. d ∷ s) (omega arith))
]

-- A printable ASCII character that is no quote (34) and no backslash (92).
abbrev pub IsQuotable : ℕ → Type 0
IsQuotable c = (32 ≤ c) × ((c ≤ 126) × ((c ≢ 34) × (c ≢ 92)))

plain-IsQuotable : (c : ℕ) → plain c ≡ true → IsQuotable c
unfolding plain
plain-IsQuotable c h =
    (ground arith, (ground arith, ((λ e. absurd (ground arith)), (λ e. absurd (ground arith)))))

-- The fallback form of a name, which stands in quotes, has no quote, no backslash, no control
-- character and nothing outside ASCII.
pub ascii_from-IsQuotable : (k : ℕ) (s : Text) → All IsQuotable (ascii_from k s)
unfolding ascii_from
ascii_from-IsQuotable k [] = tt
ascii_from-IsQuotable (suc k) (c ∷ s) = ascii_from-IsQuotable k s
ascii_from-IsQuotable zero (c ∷ s) = elim (Bool-cases (plain c)) [
  | inl e ↦ rw e (plain-IsQuotable c e, ascii_from-IsQuotable (extra c s) s)
  | inr e ↦ rw e (plain-IsQuotable b'_' (unfold plain in refl), ascii_from-IsQuotable (extra c s) s)
]
