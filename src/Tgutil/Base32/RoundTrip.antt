-- ===== src/Tgutil/Base32/RoundTrip.antt =====
-- internal/tgutil/util.go: `DecodeBase32` after `EncodeBase32`.
use thunder_go.Prelude.Below.{table_holds, table_holds_at}
use native.Mathlib.Nat.{mod-lt}
use thunder_go.Prelude.{
  ℕ, zero, suc, ◌+◌, ◌-◌, ◌*◌, ◌/◌, ◌%◌, ◌^◌, ◌<◌, ◌≡◌, refl, inl, inr, true, false, not, ◌&&◌,
  List, [], ◌∷◌, arith, All, All-append, ltb, leb, ◌==◌, if◌then◌else◌, Bool-cases,
}
use thunder_go.Prelude.Text.{Text, trim_space, is_empty, is_space}
use thunder_go.Prelude.Text.Laws.{trim_space_id}
use thunder_go.Tgutil.Base32.{
  Decoded, ok, cons_ok, decode_map, symbol, u64, emit, encode_loop, encode_base32, decode_loop,
  decode_base32,
}

symbol_table : table_holds (λ v. decode_map (symbol v) == v && not (is_space (symbol v))) 32 ≡ true
unfolding table_holds decode_map symbol is_space
symbol_table = refl

decode_map-symbol : (v : ℕ) → v < 32 → decode_map (symbol v) ≡ v
decode_map-symbol v h = ground (
  arith,
  table_holds_at (λ v. decode_map (symbol v) == v && not (is_space (symbol v))) 32 v h symbol_table,
)

is_space-symbol : (v : ℕ) → v < 32 → is_space (symbol v) ≡ false
is_space-symbol v h = ground (
  arith,
  table_holds_at (λ v. decode_map (symbol v) == v && not (is_space (symbol v))) 32 v h symbol_table,
)

-- One symbol read by the decoder.
decode_loop-symbol :
    (x : ℕ) (s : Text) (i buf bits : ℕ)
    → decode_loop (symbol (x % 32) ∷ s) i buf bits ≡ (
        let buf' = (buf * 32) % u64 + x % 32 in
        let full = leb 8 (bits + 5) in
        let rest = decode_loop s (i + 1) buf' (if full then bits + 5 - 8 else bits + 5) in
        if full then cons_ok ((buf' / 2 ^ (bits + 5 - 8)) % 256) rest else rest)
unfolding decode_loop
decode_loop-symbol x s i buf bits = rw (decode_map-symbol (x % 32) (omega arith), ne_none) refl
  where
    ne_none : ((x % 32) == 0xff) ≡ false
    ne_none = ground arith

-- The encoder holds back the `k` low bits of the last byte `l`, the decoder has the others.
abbrev Pending : ℕ → List ℕ → Type 0
Pending k bytes =
    (buf dbuf i l : ℕ)
    → l < 256
    → buf % 2 ^ k ≡ l % 2 ^ k
    → dbuf % 2 ^ (8 - k) ≡ l / 2 ^ k
    → decode_loop (encode_loop bytes buf k) i dbuf (8 - k) ≡ ok (l ∷ bytes)

abbrev Settled : List ℕ → Type 0
Settled bytes = (buf dbuf i : ℕ) → decode_loop (encode_loop bytes buf 0) i dbuf 0 ≡ ok bytes

cons_ok-eq :
    {a b : ℕ} {r : Decoded} {bytes : List ℕ} → a ≡ b → r ≡ ok bytes → cons_ok a r ≡ ok (b ∷ bytes)
cons_ok-eq p q = rw (p, q)

Pending-nil1 : Pending 1 []
unfolding encode_loop decode_loop
Pending-nil1 buf dbuf i l hl hb hd = rw decode_loop-symbol (ground arith)

Pending-nil2 : Pending 2 []
unfolding encode_loop decode_loop
Pending-nil2 buf dbuf i l hl hb hd = rw decode_loop-symbol (ground arith)

Pending-nil4 : Pending 4 []
unfolding encode_loop decode_loop
Pending-nil4 buf dbuf i l hl hb hd = rw decode_loop-symbol (ground arith)

Pending-nil3 : Pending 3 []
unfolding encode_loop decode_loop
Pending-nil3 buf dbuf i l hl hb hd = rw decode_loop-symbol (ground arith)

-- After a whole byte three bits are held back.
Settled-cons : (b : ℕ) (bytes : List ℕ) → b < 256 → Pending 3 bytes → Settled (b ∷ bytes)
unfolding encode_loop
Settled-cons b bytes hb next buf dbuf i =
    rw decode_loop-symbol (next _ _ _ b hb (omega arith) (omega arith))

Pending-cons3 : (b : ℕ) (bytes : List ℕ) → b < 256 → Pending 1 bytes → Pending 3 (b ∷ bytes)
unfolding encode_loop
Pending-cons3 b bytes hb next buf dbuf i l hl hm hd =
    rw (decode_loop-symbol, decode_loop-symbol)
      (cons_ok-eq (omega arith) (next _ _ _ b hb (omega arith) (omega arith)))

Pending-cons1 : (b : ℕ) (bytes : List ℕ) → b < 256 → Pending 4 bytes → Pending 1 (b ∷ bytes)
unfolding encode_loop
Pending-cons1 b bytes hb next buf dbuf i l hl hm hd =
    rw decode_loop-symbol (cons_ok-eq (omega arith) (next _ _ _ b hb (omega arith) (omega arith)))

Pending-cons4 : (b : ℕ) (bytes : List ℕ) → b < 256 → Pending 2 bytes → Pending 4 (b ∷ bytes)
unfolding encode_loop
Pending-cons4 b bytes hb next buf dbuf i l hl hm hd =
    rw (decode_loop-symbol, decode_loop-symbol)
      (cons_ok-eq (omega arith) (next _ _ _ b hb (omega arith) (omega arith)))

Pending-cons2 : (b : ℕ) (bytes : List ℕ) → b < 256 → Settled bytes → Pending 2 (b ∷ bytes)
unfolding encode_loop
Pending-cons2 b bytes hb next buf dbuf i l hl hm hd =
    rw (decode_loop-symbol, decode_loop-symbol)
      (cons_ok-eq (omega arith) (cons_ok-eq (omega arith) (next _ _ _)))

record Exact (bytes : List ℕ) : Type 0 where
  settled : Settled bytes
  after1 : Pending 1 bytes
  after2 : Pending 2 bytes
  after3 : Pending 3 bytes
  after4 : Pending 4 bytes

abbrev pub IsBytes : List ℕ → Type 0
IsBytes = All (λ b. b < 256)

exact : (bytes : List ℕ) → IsBytes bytes → Exact bytes
unfolding encode_loop decode_loop
exact [] h = record {
  settled = λ buf dbuf i. refl;
  after1 = Pending-nil1;
  after2 = Pending-nil2;
  after3 = Pending-nil3;
  after4 = Pending-nil4;
}
exact (b ∷ bytes) h =
    let next = exact bytes h.1 in
    record {
      settled = Settled-cons b bytes h.0 next.after3;
      after1 = Pending-cons1 b bytes h.0 next.after4;
      after2 = Pending-cons2 b bytes h.0 next.settled;
      after3 = Pending-cons3 b bytes h.0 next.after1;
      after4 = Pending-cons4 b bytes h.0 next.after2;
    }

emit-spaceless : (f buf bits : ℕ) → All (λ c. is_space c ≡ false) (emit f buf bits).0
unfolding emit
emit-spaceless zero buf bits = tt
emit-spaceless (suc f) buf bits = elim (Bool-cases (leb 5 bits)) [
  | inl more ↦ rw more (is_space-symbol _ (mod-lt _ (omega arith)), emit-spaceless f buf (bits - 5))
  | inr done ↦ rw done tt
]

encode_loop-spaceless :
    (bytes : List ℕ) (buf bits : ℕ) → All (λ c. is_space c ≡ false) (encode_loop bytes buf bits)
unfolding encode_loop
encode_loop-spaceless [] buf bits = elim (Bool-cases (ltb 0 bits)) [
  | inl more ↦ rw more (is_space-symbol _ (mod-lt _ (omega arith)), tt)
  | inr done ↦ rw done tt
]
encode_loop-spaceless (b ∷ bytes) buf bits =
    All-append _ _ _ (emit-spaceless (bits + 8) _ (bits + 8)) (encode_loop-spaceless bytes _ _)

-- Decoding the encoding of any bytes, at any length, gives them back.
pub decode_base32-encode_base32 :
    (bytes : List ℕ) → IsBytes bytes → decode_base32 (encode_base32 bytes) ≡ ok bytes
unfolding encode_base32 decode_base32 trim_space is_empty
decode_base32-encode_base32 [] h = refl
decode_base32-encode_base32 (b ∷ bytes) h =
    rw (trim_space_id _ (encode_loop-spaceless (b ∷ bytes) 0 0))
      ((exact (b ∷ bytes) h).settled 0 0 0)
