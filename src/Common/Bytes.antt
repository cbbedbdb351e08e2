-- ===== src/Common/Bytes.antt =====
-- Little-endian bytes of 32-bit words, and back.
pub mod Laws
use ertw.Common.{ℕ, zero, suc, ◌+◌, ◌*◌, ◌/◌, ◌%◌, List, [], ◌∷◌}

-- `to_le_bytes` of each word in turn.
unfoldable pub encode_words : List ℕ → List ℕ
encode_words [] = []
encode_words (w ∷ ws) =
    w % 256 ∷ w / 256 % 256 ∷ w / 65536 % 256 ∷ w / 16777216 % 256 ∷ encode_words ws

-- `from_le_bytes` of the next four bytes, `n` times.
unfoldable pub read_words : ℕ → List ℕ → List ℕ
read_words (suc n) (a ∷ b ∷ c ∷ d ∷ bytes) =
    (a + 256 * b + 65536 * c + 16777216 * d) ∷ read_words n bytes
read_words _ _ = []
