-- ===== src/Tgutil/Hex.antt =====
-- hex.EncodeToString, as internal/tgutil/util.go and internal/ingest/ingest.go use it on a digest.
use thunder_go.Prelude.{
  ℕ, ◌+◌, ◌-◌, ◌*◌, ◌/◌, ◌%◌, ◌≡◌, refl, List, [], ◌∷◌, arith, length, take, ltb, if◌then◌else◌,
}
use thunder_go.Prelude.Text.{Text}

digit : ℕ → ℕ
digit n = if ltb n 10 then b'0' + n else b'a' + (n - 10)

unfoldable pub hex_encode : List ℕ → Text
unfolding digit
hex_encode [] = []
hex_encode (b ∷ bytes) = digit (b / 16) ∷ digit (b % 16) ∷ hex_encode bytes

pub length-hex_encode : (bytes : List ℕ) → length (hex_encode bytes) ≡ 2 * length bytes
unfolding hex_encode
length-hex_encode [] = refl
length-hex_encode (b ∷ bytes) = omega (arith, length-hex_encode bytes)

module _ (sha256 : Text → List ℕ) where
  -- For the logs.
  pub token_hash : Text → Text
  unfolding hex_encode
  token_hash token = hex_encode (take 8 (sha256 token))
