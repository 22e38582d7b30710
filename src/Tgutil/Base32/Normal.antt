-- ===== src/Tgutil/Base32/Normal.antt =====
-- internal/tgutil/util.go: `NormalizeBase32`, the form of a token under which the database keeps it.
use thunder_go.Prelude.Below.{table_holds, table_holds_at}
use thunder_go.Prelude.{
  ==_iff, ℕ, ◌+◌, ◌-◌, ◌*◌, ◌%◌, ◌<◌, ◌≡◌, refl, ap, inl, inr, Bool, true, false, ◌&&◌, List, [],
  ◌∷◌, map, arith, leb, ◌==◌, if◌then◌else◌, Bool-cases,
}
use thunder_go.Prelude.Text.{
  Text, trim_space, trim_left, trim_right, to_lower, lower_byte, is_space, is_empty,
}
use thunder_go.Tgutil.Base32.RoundTrip.{IsBytes}
use thunder_go.Prelude.Text.Laws.{trim_space_twice}
use thunder_go.Tgutil.Base32.{
  cons_ok, DecodeError, u64, Decoded, ok, err, decode_map, decode_loop, decode_base32, normal_byte,
  normalize_base32,
}

canonical : ℕ → ℕ
unfolding normal_byte lower_byte
canonical c = normal_byte (lower_byte c)

normalize_base32-eq-map : (s : Text) → normalize_base32 s ≡ map canonical (trim_space s)
unfolding normalize_base32 canonical to_lower
normalize_base32-eq-map s = go (trim_space s)
  where
    go : (t : Text) → map normal_byte (to_lower t) ≡ map canonical t
    go [] = refl
    go (c ∷ t) = ap (◌∷◌ (canonical c)) (go t)

canonical-canonical : (c : ℕ) → canonical (canonical c) ≡ canonical c
unfolding canonical
canonical-canonical c = ground arith

is_space-canonical : (c : ℕ) → is_space (canonical c) ≡ is_space c
unfolding canonical is_space
is_space-canonical c = ground arith

canonical_table : table_holds (λ c. decode_map (canonical c) == decode_map c) 256 ≡ true
unfolding table_holds decode_map canonical
canonical_table = refl

decode_map-canonical : (c : ℕ) → c < 256 → decode_map (canonical c) ≡ decode_map c
decode_map-canonical c h =
    (==_iff _ _).0
      (table_holds_at (λ c. decode_map (canonical c) == decode_map c) 256 c h canonical_table)

map-canonical : (t : Text) → map canonical (map canonical t) ≡ map canonical t
map-canonical [] = refl
map-canonical (c ∷ t) = rw (canonical-canonical c, map-canonical t)

trim_left-map :
    (t : Text) → trim_left is_space (map canonical t) ≡ map canonical (trim_left is_space t)
unfolding trim_left
trim_left-map [] = refl
trim_left-map (c ∷ t) = ground (arith, is_space-canonical c, trim_left-map t)

is_empty-map : (t : Text) → is_empty (map canonical t) ≡ is_empty t
unfolding is_empty
is_empty-map [] = refl
is_empty-map (c ∷ t) = refl

trim_right-map :
    (t : Text) → trim_right is_space (map canonical t) ≡ map canonical (trim_right is_space t)
unfolding trim_right
trim_right-map [] = refl
trim_right-map (c ∷ t) =
    ground (arith, is_space-canonical c, trim_right-map t, is_empty-map (trim_right is_space t))

trim_space-map : (t : Text) → trim_space (map canonical t) ≡ map canonical (trim_space t)
unfolding trim_space
trim_space-map t = rw (trim_left-map t) (trim_right-map (trim_left is_space t))

-- The canonical form of a canonical form is itself: normalising on the way into the request's
-- context and again in a handler is harmless.
normalize_base32_twice : (s : Text) → normalize_base32 (normalize_base32 s) ≡ normalize_base32 s
normalize_base32_twice s = rw (
  normalize_base32-eq-map (normalize_base32 s),
  normalize_base32-eq-map s,
  trim_space-map (trim_space s),
  trim_space_twice s,
  map-canonical (trim_space s),
)

step_keeps :
    (invalid full : Bool) (x : ℕ) (e e' : DecodeError) (r r' : Decoded) (bytes : List ℕ)
    → ((bs : List ℕ) → r ≡ ok bs → r' ≡ ok bs)
    → (if invalid then err e else if full then cons_ok x r else r) ≡ ok bytes
    → (if invalid then err e' else if full then cons_ok x r' else r') ≡ ok bytes
step_keeps true full x e e' r r' bytes keep h = cc
step_keeps false false x e e' r r' bytes keep h = keep bytes h
step_keeps false true x e e' (ok bs) r' bytes keep h = rw (keep bs refl) h
step_keeps false true x e e' (err f) r' bytes keep h = cc

decode_loop-map :
    (t : Text) (i buf bits : ℕ) (bytes : List ℕ)
    → IsBytes t
    → decode_loop t i buf bits ≡ ok bytes
    → decode_loop (map canonical t) i buf bits ≡ ok bytes
unfolding decode_loop
decode_loop-map [] i buf bits bytes h e = e
decode_loop-map (c ∷ t) i buf bits bytes h e = rw (decode_map-canonical c h.0) (
    let buf' = (buf * 32) % u64 + decode_map c in
    let next = if leb 8 (bits + 5) then bits + 5 - 8 else bits + 5 in
    step_keeps _ _ _ _ _ _ _ bytes (λ bs. decode_loop-map t (i + 1) buf' next bs h.1) e)

trim_left-IsBytes : (s : Text) → IsBytes s → IsBytes (trim_left is_space s)
unfolding trim_left
trim_left-IsBytes [] h = tt
trim_left-IsBytes (c ∷ s) h = elim (Bool-cases (is_space c)) [
  | inl blank ↦ rw blank (trim_left-IsBytes s h.1)
  | inr solid ↦ rw solid h
]

trim_right-IsBytes : (s : Text) → IsBytes s → IsBytes (trim_right is_space s)
unfolding trim_right
trim_right-IsBytes [] h = tt
trim_right-IsBytes (c ∷ s) h = elim (Bool-cases (is_space c && is_empty (trim_right is_space s))) [
  | inl blank ↦ rw blank tt
  | inr solid ↦ rw solid (h.0, trim_right-IsBytes s h.1)
]

-- A token and its canonical form decode alike: letter case, surrounding white space and the
-- letters O, I and L in place of 0 and 1 do not change what a decodable text stands for.
pub decode_base32-normalize_base32 :
    (s : Text) (bytes : List ℕ)
    → IsBytes s
    → decode_base32 s ≡ ok bytes
    → decode_base32 (normalize_base32 s) ≡ ok bytes
unfolding decode_base32
decode_base32-normalize_base32 s bytes h e =
    rw
      (
        normalize_base32-eq-map s,
        trim_space-map (trim_space s),
        trim_space_twice s,
        is_empty-map (trim_space s),
      )
      (go (is_empty (trim_space s)) e)
  where
    go :
        (b : Bool)
        → (if b then ok [] else decode_loop (trim_space s) 0 0 0) ≡ ok bytes
        → (if b then ok [] else decode_loop (map canonical (trim_space s)) 0 0 0) ≡ ok bytes
    go true d = d
    go false d =
        decode_loop-map (trim_space s) 0 0 0 bytes
          (unfold trim_space in trim_right-IsBytes _ (trim_left-IsBytes s h)) d
