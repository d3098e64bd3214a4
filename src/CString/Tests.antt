-- ===== src/CString/Tests.antt =====
-- A string of two characters, and ranges that overlap.
use x.Prelude.{ℕ, ◌<◌, ◌≤◌, ◌≡◌, refl, ◌⊎◌, inr, [], ◌∷◌, some, none, ◌==◌, if◌then◌else◌, arith}
use x.CString.{memmove, strchr, strlcpy, Copied}
use x.CString.Copy.{IsCopy, memmove_lem}
use x.CString.Text.{IsString, strlcpy_lem}

abbrev memory : ℕ → ℕ
memory a = if a == 0 then b'o' else if a == 1 then b'k' else 0

memory-IsString : IsString memory 0 (b'o' ∷ b'k' ∷ [])
memory-IsString =
    (refl, (λ e. absurd (omega (arith, e))), (refl, (λ e. absurd (omega (arith, e))), refl))

-- A character of 128 or more is not found.
strchr-high : strchr 3 (λ a. if a == 0 then 233 else 0) 0 233 ≡ some none
unfolding strchr
strchr-high = refl

memmove_lem_example : IsCopy memory (memmove memory 1 0 2) 1 0 2
memmove_lem_example = memmove_lem memory 1 0 2

strlcpy_lem_example :
    (c : Copied) × (strlcpy 3 memory 8 0 2 ≡ some c)
    × (c.len ≡ 2)
    × IsString c.mem 8 (b'o' ∷ [])
    × ((a : ℕ) → (a < 8) ⊎ (10 ≤ a) → c.mem a ≡ memory a)
strlcpy_lem_example =
    strlcpy_lem 3 memory 8 0 2 (b'o' ∷ b'k' ∷ []) memory-IsString (omega arith) (omega arith)
      (inr (omega arith))
