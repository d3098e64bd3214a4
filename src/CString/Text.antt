-- ===== src/CString/Text.antt =====
-- Strings in memory as sequences of characters.
use x.Prelude.{
  ℕ, zero, suc, ◌+◌, ◌-◌, ◌<◌, ◌≤◌, ◌≡◌, ◌≢◌, refl, sym, ap, ap₂, subst, ◌∙◌, ◌⊎◌, inl, inr, List,
  [], ◌∷◌, Option, some, true, false, ltb, Bool-cases, ltb→lt, ne→==, eq→==, ◌==◌, if◌then◌else◌,
  length, take, update, update_self, update_ne, arith,
}
use x.CString.{strlen, strcmp, Compared, equal, difference, strlcpy, Copied, memcpy, kept_size}
use x.CString.Copy.{memcpy_lem}

-- The characters of a string, up to its null byte.
abbrev pub IsString : (ℕ → ℕ) → ℕ → List ℕ → Type 0
IsString mem s [] = mem s ≡ 0
IsString mem s (c ∷ cs) = (mem s ≡ c) × (c ≢ 0) × IsString mem (s + 1) cs

-- The loop of strlen ends at the null byte of a string, after its characters.
pub strlen_lem :
    (fuel : ℕ) (mem : ℕ → ℕ) (s : ℕ) (cs : List ℕ)
    → IsString mem s cs
    → length cs < fuel
    → strlen fuel mem s ≡ some (length cs)
unfolding strlen
strlen_lem zero mem s cs r h = absurd (omega arith)
strlen_lem (suc fuel) mem s [] r h = rw (eq→== (mem s) 0 r, strlen)
strlen_lem (suc fuel) mem s (c ∷ cs) (e, n, r) h =
    rw
      (ne→== (mem s) 0 (λ z. n (sym e ∙ z)), strlen_lem fuel mem (s + 1) cs r (omega arith), strlen)
      (ap some (omega arith))

front-IsString :
    (k : ℕ) (mem mem' : ℕ → ℕ) (dest src : ℕ) (cs : List ℕ)
    → IsString mem src cs
    → k ≤ length cs
    → ((i : ℕ) → i < k → mem' (dest + i) ≡ mem (src + i))
    → mem' (dest + k) ≡ 0
    → IsString mem' dest (take k cs)
front-IsString zero mem mem' dest src cs r h same end =
    let e : dest + 0 ≡ dest = omega arith in ap mem' (sym e) ∙ end
front-IsString (suc k) mem mem' dest src [] r h same end = absurd (omega arith)
front-IsString (suc k) mem mem' dest src (c ∷ cs) (e, n, r) h same end =
    let f : dest + 0 ≡ dest = omega arith in
    let g : src + 0 ≡ src = omega arith in
    (
      ap mem' (sym f) ∙ same 0 (omega arith) ∙ ap mem g ∙ e,
      n,
      front-IsString k mem mem' (dest + 1) (src + 1) cs r (omega arith)
          (λ i l. ap mem' (omega arith) ∙ same (suc i) (omega arith) ∙ ap mem (omega arith))
          (ap mem' (omega arith) ∙ end),
    )

take-kept : (cs : List ℕ) (n : ℕ) → 0 < n → take (kept_size (length cs) n) cs ≡ take (n - 1) cs
take-kept cs n h = elim (Bool-cases (ltb (length cs) n)) [
  | inr e ↦ rw e
  | inl e ↦ rw e (
      whole cs (length cs) (omega arith)
      ∙ sym (whole cs (n - 1) (omega (arith, ltb→lt (length cs) n e))))
]
  where
    whole : (cs : List ℕ) (k : ℕ) → length cs ≤ k → take k cs ≡ cs
    whole [] zero h = refl
    whole [] (suc k) h = refl
    whole (c ∷ cs) zero h = absurd (omega arith)
    whole (c ∷ cs) (suc k) h = ap (λ t. c ∷ t) (whole cs k (omega arith))

-- Copying a string into a buffer of `n` bytes apart from it puts as much of it there as fits before a
-- null byte, changes nothing outside the buffer, and returns the length of the string.
pub strlcpy_lem :
    (fuel : ℕ) (mem : ℕ → ℕ) (dest src n : ℕ) (cs : List ℕ)
    → IsString mem src cs
    → length cs < fuel
    → 0 < n
    → (dest + n ≤ src) ⊎ (src + length cs + 1 ≤ dest)
    → (c : Copied) × (strlcpy fuel mem dest src n ≡ some c)
      × (c.len ≡ length cs)
      × IsString c.mem dest (take (n - 1) cs)
      × ((a : ℕ) → (a < dest) ⊎ (dest + n ≤ a) → c.mem a ≡ mem a)
unfolding strlcpy
strlcpy_lem fuel mem dest src n cs r h p apart =
    let k : ℕ = kept_size (length cs) n in
    let (short, room) = kept-bounds (length cs) n p in
    let (same, others) = memcpy_lem mem dest src k (gap short room apart) in
    let mem₁ : ℕ → ℕ = memcpy mem dest src k in
    let mem₂ : ℕ → ℕ = update mem₁ (dest + k) 0 in
    (
      record { mem = mem₂; len = length cs },
      rw (strlen_lem fuel mem src cs r h, ne→== n 0 (λ e. absurd (omega (arith, e, p)))),
      refl,
      subst (λ t. IsString mem₂ dest t) (take-kept cs n p)
          (front-IsString k mem mem₂ dest src cs r short
            (λ i l.
              update_ne mem₁ (dest + k) (dest + i) 0 (λ e. absurd (omega (arith, e, l))) ∙ same i l)
            (update_self mem₁ (dest + k) 0)),
      λ a o.
          update_ne mem₁ (dest + k) a 0 (λ e. absurd (omega (arith, e, o, room)))
          ∙ others a (omega (arith, o, room)),
    )
  where
    kept-bounds : (len n : ℕ) → 0 < n → (kept_size len n ≤ len) × (kept_size len n < n)
    kept-bounds len n p = (ground (arith, p), ground (arith, p))

    gap :
        kept_size (length cs) n ≤ length cs
        → kept_size (length cs) n < n
        → (dest + n ≤ src) ⊎ (src + length cs + 1 ≤ dest)
        → (dest ≤ src) ⊎ (src + kept_size (length cs) n ≤ dest)
    gap s l (inl a) = inl (omega (arith, a))
    gap s l (inr a) = inr (omega (arith, a, s))

-- Comparing sequences, where the end of one is a null byte.
abbrev pub compare_texts : List ℕ → List ℕ → Compared
compare_texts [] [] = equal
compare_texts [] (d ∷ ds) = difference 0 d
compare_texts (c ∷ cs) [] = difference c 0
compare_texts (c ∷ cs) (d ∷ ds) = if c == d then compare_texts cs ds else difference c d

-- a turn of the loop of strcmp, on the characters that it reads
abbrev turn : ℕ → ℕ → Option Compared → Option Compared
turn a b rest = elim (a == b) [
  | true ↦ elim (a == 0) [ true ↦ some equal | false ↦ rest ]
  | false ↦ some (difference a b)
]

turn-differ :
    (a b : ℕ) (rest : Option Compared) → (a == b) ≡ false → turn a b rest ≡ some (difference a b)
turn-differ a b rest e = rw (e, turn)

turn-same :
    (a b : ℕ) (rest : Option Compared) → (a == b) ≡ true → (a == 0) ≡ false → turn a b rest ≡ rest
turn-same a b rest e f = rw (e, turn, f)

strcmp-turn :
    (fuel : ℕ) (mem : ℕ → ℕ) (s1 s2 a b : ℕ)
    → mem s1 ≡ a
    → mem s2 ≡ b
    → strcmp (suc fuel) mem s1 s2 ≡ turn a b (strcmp fuel mem (s1 + 1) (s2 + 1))
unfolding strcmp
strcmp-turn fuel mem s1 s2 a b e f = ap₂ (λ a b. turn a b (strcmp fuel mem (s1 + 1) (s2 + 1))) e f

-- strcmp compares two strings as their sequences of characters compare.
pub strcmp_lem :
    (fuel : ℕ) (mem : ℕ → ℕ) (s1 s2 : ℕ) (cs ds : List ℕ)
    → IsString mem s1 cs
    → IsString mem s2 ds
    → length cs < fuel
    → strcmp fuel mem s1 s2 ≡ some (compare_texts cs ds)
strcmp_lem zero mem s1 s2 cs ds r r' h = absurd (omega arith)
strcmp_lem (suc fuel) mem s1 s2 [] [] r r' h = strcmp-turn fuel mem s1 s2 0 0 r r'
strcmp_lem (suc fuel) mem s1 s2 [] (d ∷ ds) r (e', n', r') h =
    strcmp-turn fuel mem s1 s2 0 d r e'
    ∙ turn-differ 0 d (strcmp fuel mem (s1 + 1) (s2 + 1)) (ne→== 0 d (λ z. n' (sym z)))
strcmp_lem (suc fuel) mem s1 s2 (c ∷ cs) [] (e, n, r) r' h =
    strcmp-turn fuel mem s1 s2 c 0 e r'
    ∙ turn-differ c 0 (strcmp fuel mem (s1 + 1) (s2 + 1)) (ne→== c 0 n)
strcmp_lem (suc fuel) mem s1 s2 (c ∷ cs) (d ∷ ds) (e, n, r) (e', n', r') h =
    strcmp-turn fuel mem s1 s2 c d e e' ∙ elim (Bool-cases (c == d)) [
      | inl b ↦
          turn-same c d (strcmp fuel mem (s1 + 1) (s2 + 1)) b (ne→== c 0 n)
          ∙ strcmp_lem fuel mem (s1 + 1) (s2 + 1) cs ds r r' (omega arith)
          ∙ rw b
      | inr b ↦ turn-differ c d (strcmp fuel mem (s1 + 1) (s2 + 1)) b ∙ rw b
    ]
