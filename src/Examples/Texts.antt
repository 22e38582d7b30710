-- ===== src/Examples/Texts.antt =====
-- Headers, tokens and file names.
use thunder_go.Prelude.{ℕ, ◌≡◌, refl, List, [], ◌∷◌, ◌++◌, arith, All}
use thunder_go.Prelude.Int.{pos}
use thunder_go.Prelude.Text.{is_empty, trim_space, codes}
use thunder_go.Tgutil.Range.Bounds.{Inside, parse_range-Inside}
use thunder_go.Tgutil.Range.Header.{closed_header, parse_range-closed}
use thunder_go.Tgutil.Base32.{ok, encode_base32, decode_base32, normalize_base32}
use thunder_go.Tgutil.Base32.RoundTrip.{IsBytes, decode_base32-encode_base32}
use thunder_go.Tgutil.Base32.Normal.{decode_base32-normalize_base32}
use thunder_go.Tgutil.Disposition.{ascii_from, percent_encode}
use thunder_go.Tgutil.Disposition.Escaped.{
  percent_decode, percent_decode-percent_encode, IsQuotable, ascii_from-IsQuotable,
}

parse_range-Inside_example : Inside (pos 5) (record { start = 1; end = 3 })
parse_range-Inside_example =
    parse_range-Inside (closed_header 1 3) (pos 5) (record { start = 1; end = 3 })
      (parse_range-closed 1 3 4 (omega arith) (omega arith))

abbrev two_bytes : List ℕ
two_bytes = 255 ∷ 7 ∷ []

two-IsBytes : IsBytes two_bytes
two-IsBytes = (omega arith, (omega arith, tt))

decode_base32-encode_base32_example : decode_base32 (encode_base32 two_bytes) ≡ ok two_bytes
decode_base32-encode_base32_example = decode_base32-encode_base32 two_bytes two-IsBytes

upper-decodes : decode_base32 (codes "ZW3G") ≡ ok two_bytes
unfolding decode_base32 is_empty trim_space
upper-decodes = refl

decode_base32-normalize_base32_example :
    decode_base32 (normalize_base32 (codes "ZW3G")) ≡ ok two_bytes
decode_base32-normalize_base32_example =
    decode_base32-normalize_base32 (codes "ZW3G") two_bytes
      (omega arith, (omega arith, (omega arith, (omega arith, tt)))) upper-decodes

percent_decode-percent_encode_example :
    percent_decode 0 (percent_encode (codes "a b")) ≡ codes "a b"
percent_decode-percent_encode_example =
    percent_decode-percent_encode (codes "a b") (omega arith, (omega arith, (omega arith, tt)))

ascii_from-IsQuotable_example : All IsQuotable (ascii_from 0 (codes "a" ++ (34 ∷ 195 ∷ 169 ∷ [])))
ascii_from-IsQuotable_example = ascii_from-IsQuotable 0 (codes "a" ++ (34 ∷ 195 ∷ 169 ∷ []))
