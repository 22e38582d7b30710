-- ===== src/Tgutil/Disposition.antt =====
-- internal/tgutil/util.go: the Content-Disposition header.
pub mod Escaped
use thunder_go.Prelude.{
  ℕ, zero, suc, ◌+◌, ◌-◌, ◌/◌, ◌%◌, Bool, true, false, not, ◌&&◌, ◌||◌, [], ◌∷◌, ◌++◌, ltb, leb,
  ◌==◌, if◌then◌else◌,
}
use thunder_go.Prelude.Text.{
  Text, codes, text_eq, is_upper, is_lower, is_digit, trim_space, to_lower,
}

between : ℕ → ℕ → ℕ → Bool
between lo hi c = leb lo c && leb c hi

-- Whether a second byte `d` may follow the first byte `c` of a multi-byte rune.
second_ok : ℕ → ℕ → Bool
unfolding between
second_ok c d =
    between (if c == 0xE0 then 0xA0 else if c == 0xF0 then 0x90 else 0x80)
      (if c == 0xED then 0x9F else if c == 0xF4 then 0x8F else 0xBF) d

-- The number of bytes that a rune with this first byte has.
width : ℕ → ℕ
unfolding between
width c =
    if between 0xC2 0xDF c
    then 2
    else if between 0xE0 0xEF c
    then 3
    else if between 0xF0 0xF4 c
    then 4
    else 1

continues : ℕ → Text → Bool
unfolding between
continues zero s = true
continues (suc n) [] = false
continues (suc n) (d ∷ s) = between 0x80 0xBF d && continues n s

-- How many bytes after `c` belong to its rune; none after a byte that begins no rune.
extra : ℕ → Text → ℕ
unfolding second_ok width continues
extra c [] = 0
extra c (d ∷ s) =
    let n = width c - 1 in if leb 1 n && (second_ok c d && continues n (d ∷ s)) then n else 0

-- The runes that the fallback keeps.
pub plain : ℕ → Bool
plain r = leb 0x20 r && (ltb r 0x7F && (not (r == b'"') && not (r == 92)))

-- The ASCII fallback, with bytes left to skip of the rune before.
pub ascii_from : ℕ → Text → Text
unfolding plain extra
ascii_from k [] = []
ascii_from (suc k) (c ∷ s) = ascii_from k s
ascii_from zero (c ∷ s) = (if plain c then c else b'_') ∷ ascii_from (extra c s) s

member : ℕ → Text → Bool
member c [] = false
member c (d ∷ s) = c == d || member c s

pub is_attr_char : ℕ → Bool
unfolding is_lower is_upper is_digit member
is_attr_char b = is_lower b || (is_upper b || (is_digit b || member b (codes "!#$&+-.^_`|~")))

pub hex_digit : ℕ → ℕ
hex_digit n = if ltb n 10 then 48 + n else 87 + n

pub percent_encode : Text → Text
unfolding is_attr_char hex_digit
percent_encode [] = []
percent_encode (b ∷ s) =
    let rest = percent_encode s in
    if is_attr_char b then b ∷ rest else b'%' ∷ hex_digit (b / 16) ∷ hex_digit (b % 16) ∷ rest

unfoldable pub sanitize_for_disposition : Text → Text × Text
unfolding ascii_from percent_encode
sanitize_for_disposition name = (ascii_from 0 name, codes "UTF-8''" ++ percent_encode name)

unfoldable pub disposition_header : Text → Text → Text
disposition_header disposition filename =
    let names = sanitize_for_disposition filename in
    disposition
    ++ (codes "; filename=" ++ ((b'"' ∷ names.0) ++ ((b'"' ∷ codes "; filename*=") ++ names.1)))

-- From the value of the query parameter.
unfoldable pub query_disposition : Text → Text
query_disposition v =
    if text_eq (to_lower (trim_space v)) (codes "inline")
    then codes "inline"
    else codes "attachment"
