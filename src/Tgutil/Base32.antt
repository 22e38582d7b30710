-- ===== src/Tgutil/Base32.antt =====
-- internal/tgutil/util.go: Crockford base32. `buf` is a uint64, whose shifts wrap.
pub mod RoundTrip
pub mod Normal
use thunder_go.Prelude.{
  ℕ, zero, suc, ◌+◌, ◌-◌, ◌*◌, ◌/◌, ◌%◌, ◌^◌, ◌≤◌, ◌<◌, min, max, ◌≡◌, refl, sym, ap, ◌∙◌, subst,
  ◌≢◌, ◌↔◌, ◌⊎◌, inl, inr, Bool, true, false, not, ◌&&◌, ◌||◌, Option, none, some, List, [], ◌∷◌,
  ◌++◌, map, append-nil, append_assoc, arith, length, get_elem?, set, take, drop, length-append,
  length-take, length-drop, All, All-append, All-map, All_at, get_elem?-append,
  get_elem?-append_length, ltb, leb, ◌==◌, if◌then◌else◌, tests, leb→le, le→leb, leb-false→lt,
  ltb→lt, lt→ltb, ltb-false→le, Bool-cases, Option-cases,
}
use thunder_go.Prelude.Text.{Text, codes, trim_space, to_lower, is_empty, is_lower}

abbrev crockford : Text
crockford = codes "0123456789abcdefghjkmnpqrstvwxyz"

pub data DecodeError : Type 0 where
  invalid_character : ℕ → ℕ → DecodeError
  trailing_bits : DecodeError

pub data Decoded : Type 0 where
  ok : List ℕ → Decoded
  err : DecodeError → Decoded

abbrev cons_ok : ℕ → Decoded → Decoded
cons_ok b (ok bs) = ok (b ∷ bs)
cons_ok b (err e) = err e

to_upper : ℕ → ℕ
unfolding is_lower
to_upper c = if is_lower c then c - 32 else c

-- The first 32 entries that `initDecodeMap` writes, each in both letter cases.
map_from : ℕ → Text → ℕ → ℕ
unfolding to_upper
map_from i [] c = 0xff
map_from i (a ∷ s) c = if c == a || c == to_upper a then i else map_from (i + 1) s c

decode_map : ℕ → ℕ
unfolding map_from
decode_map c =
    if c == b'O' || c == b'o'
    then 0
    else if (c == b'I' || c == b'i') || (c == b'L' || c == b'l')
    then 1
    else map_from 0 crockford c

abbrev nth_byte : Text → ℕ → ℕ
nth_byte [] i = 0
nth_byte (c ∷ s) zero = c
nth_byte (c ∷ s) (suc i) = nth_byte s i

-- crockford[v]
symbol : ℕ → ℕ
symbol v = nth_byte crockford v

abbrev u64 : ℕ
u64 = 2 ^ 64

-- `for bits >= 5`: the symbols written and the bits left. Each round takes five bits, so `fuel`,
-- which is `bits` at the call, is enough.
emit : ℕ → ℕ → ℕ → Text × ℕ
emit zero buf bits = ([], bits)
emit (suc fuel) buf bits =
    let rest = emit fuel buf (bits - 5) in
    let more : Text × ℕ = (symbol ((buf / 2 ^ (bits - 5)) % 32) ∷ rest.0, rest.1) in
    if leb 5 bits then more else ([], bits)

encode_loop : List ℕ → ℕ → ℕ → Text
unfolding emit
encode_loop [] buf bits =
    if ltb 0 bits then symbol (((buf * 2 ^ (5 - bits)) % u64) % 32) ∷ [] else []
encode_loop (b ∷ data') buf bits =
    let buf' = (buf * 256) % u64 + b in
    let out = emit (bits + 8) buf' (bits + 8) in out.0 ++ encode_loop data' buf' out.1

unfoldable pub encode_base32 : List ℕ → Text
unfolding encode_loop symbol
encode_base32 data' = encode_loop data' 0 0

decode_loop : Text → ℕ → ℕ → ℕ → Decoded
decode_loop [] i buf bits =
    if ltb 0 bits && not (buf % 2 ^ bits == 0) then err trailing_bits else ok []
decode_loop (c ∷ s) i buf bits =
    let v = decode_map c in
    let buf' = (buf * 32) % u64 + v in
    let full = leb 8 (bits + 5) in
    let rest = decode_loop s (i + 1) buf' (if full then bits + 5 - 8 else bits + 5) in
    if v == 0xff
    then err (invalid_character c i)
    else if full
    then cons_ok ((buf' / 2 ^ (bits + 5 - 8)) % 256) rest
    else rest

unfoldable pub decode_base32 : Text → Decoded
unfolding decode_loop decode_map
decode_base32 s = let t = trim_space s in if is_empty t then ok [] else decode_loop t 0 0 0

normal_byte : ℕ → ℕ
normal_byte c = if c == b'o' then b'0' else if c == b'i' || c == b'l' then b'1' else c

unfoldable pub normalize_base32 : Text → Text
unfolding normal_byte
normalize_base32 s = map normal_byte (to_lower (trim_space s))
