-- ===== src/Bitmap/Tests.antt =====
-- Bitmaps of two words.
use x.Prelude.{ℕ, ◌≡◌, refl, some, List, [], ◌∷◌, arith}
use x.Bitmap.{set_bit, clear_bit}
use x.Bitmap.Update.{Becomes, set_bit_lem}

abbrev two_words : List ℕ
two_words = 5 ∷ 6 ∷ []

sets : set_bit two_words 67 ≡ some (5 ∷ 14 ∷ [])
unfolding set_bit
sets = refl

clears : clear_bit two_words 66 ≡ some (5 ∷ 2 ∷ [])
unfolding clear_bit
clears = refl

set_bit_lem_example : (r : List ℕ) × (set_bit two_words 67 ≡ some r) × Becomes two_words 67 1 r
set_bit_lem_example = set_bit_lem two_words 67 (omega arith)
