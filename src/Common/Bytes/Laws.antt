-- ===== src/Common/Bytes/Laws.antt =====
-- Words and their bytes are the same data.
use ertw.Common.Bytes.{encode_words, read_words}
use ertw.Common.{
  refl, ap, zero, suc, [], arith, ◌*◌, ap₂, ◌∷◌, ◌≡◌, ◌++◌, length, All, ◌^◌, List, ◌<◌, ℕ,
}

abbrev pub IsWord : ℕ → Type 0
IsWord w = w < 2 ^ 32

abbrev pub IsByte : ℕ → Type 0
IsByte b = b < 256

pub read_words-encode_words :
    (ws rest : List ℕ) → All IsWord ws → read_words (length ws) (encode_words ws ++ rest) ≡ ws
unfolding read_words encode_words
read_words-encode_words [] rest h = refl
read_words-encode_words (w ∷ ws) rest h =
    ap₂ ◌∷◌ (omega arith) (read_words-encode_words ws rest h.1)

pub length-encode_words : (ws : List ℕ) → length (encode_words ws) ≡ 4 * length ws
unfolding encode_words
length-encode_words [] = refl
length-encode_words (w ∷ ws) = omega (arith, length-encode_words ws)

pub encode_words-IsByte : (ws : List ℕ) → All IsByte (encode_words ws)
unfolding encode_words
encode_words-IsByte [] = tt
encode_words-IsByte (w ∷ ws) =
    (omega arith, (omega arith, (omega arith, (omega arith, encode_words-IsByte ws))))

pub encode_words-read_words :
    (n : ℕ) (bytes : List ℕ)
    → length bytes ≡ 4 * n
    → All IsByte bytes
    → encode_words (read_words n bytes) ≡ bytes
unfolding read_words encode_words
encode_words-read_words zero [] l h = refl
encode_words-read_words zero (a ∷ bytes) l h = absurd (omega arith)
encode_words-read_words (suc n) [] l h = absurd (omega arith)
encode_words-read_words (suc n) (a ∷ []) l h = absurd (omega arith)
encode_words-read_words (suc n) (a ∷ b ∷ []) l h = absurd (omega arith)
encode_words-read_words (suc n) (a ∷ b ∷ c ∷ []) l h = absurd (omega arith)
encode_words-read_words (suc n) (a ∷ b ∷ c ∷ d ∷ bytes) l h = ap₂ ◌∷◌ (omega arith) (
    ap₂ ◌∷◌ (omega arith) (
      ap₂ ◌∷◌ (omega arith)
        (ap₂ ◌∷◌ (omega arith) (encode_words-read_words n bytes (omega arith) h.1.1.1.1))))

pub length-read_words :
    (n : ℕ) (bytes : List ℕ) → length bytes ≡ 4 * n → length (read_words n bytes) ≡ n
unfolding read_words
length-read_words zero bytes l = refl
length-read_words (suc n) [] l = absurd (omega arith)
length-read_words (suc n) (a ∷ []) l = absurd (omega arith)
length-read_words (suc n) (a ∷ b ∷ []) l = absurd (omega arith)
length-read_words (suc n) (a ∷ b ∷ c ∷ []) l = absurd (omega arith)
length-read_words (suc n) (a ∷ b ∷ c ∷ d ∷ bytes) l =
    ap suc (length-read_words n bytes (omega arith))

-- Bytes make words of 32 bits.
pub read_words-IsWord :
    (n : ℕ) (bytes : List ℕ) → All IsByte bytes → All IsWord (read_words n bytes)
unfolding read_words
read_words-IsWord (suc n) (a ∷ b ∷ c ∷ d ∷ bytes) h =
    (omega arith, read_words-IsWord n bytes h.1.1.1.1)
read_words-IsWord _ _ h = tt
