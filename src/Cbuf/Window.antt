-- ===== src/Cbuf/Window.antt =====
-- How the window of a circular buffer's bytes grows, shrinks, and stays as bytes are stored.
use native.Mathlib.Nat.{mod-lt, mod-mod_of_dvd, mod-add-mod, mod-eq_of_lt, mod-eq-sub-mod}
use native.Mathlib.Decide.{dec_lt}
use x.Prelude.{
  ℕ, zero, suc, ◌+◌, ◌-◌, ◌%◌, ◌≤◌, ◌<◌, ◌≡◌, ◌≢◌, refl, sym, ap, ap₂, ◌∙◌, inl, inr, List, [], ◌∷◌,
  ◌++◌, length, get_or, set, drop, take, min, arith,
}
use x.Prelude.Words.{size_mod, size_add}
use x.Cbuf.Inv.{IsModulus, next_slot}
use x.Cbuf.Fill.{Ahead}
use x.Cbuf.Contents.{window}

pub get_or-set_self : (xs : List ℕ) (i v d : ℕ) → i < length xs → get_or (set xs i v) i d ≡ v
get_or-set_self [] i v d h = absurd (omega arith)
get_or-set_self (x ∷ xs) zero v d h = refl
get_or-set_self (x ∷ xs) (suc i) v d h = get_or-set_self xs i v d (omega arith)

get_or-set_ne : (xs : List ℕ) {i j : ℕ} (v d : ℕ) → i ≢ j → get_or (set xs i v) j d ≡ get_or xs j d
get_or-set_ne [] v d h = refl
get_or-set_ne (x ∷ xs) {i = zero} {j = zero} v d h = absurd (h refl)
get_or-set_ne (x ∷ xs) {i = zero} {j = suc j} v d h = refl
get_or-set_ne (x ∷ xs) {i = suc i} {j = zero} v d h = refl
get_or-set_ne (x ∷ xs) {i = suc i} {j = suc j} v d h = get_or-set_ne xs v d (λ e. h (ap suc e))

module _ {cap : ℕ} (m : IsModulus cap) where
  pub slot-Ahead : (i d : ℕ) → d < cap → Ahead cap (i % cap) d (size_add i d % cap)
  slot-Ahead i d h = elim (dec_lt (i % cap + d) cap) [
    | yes p ↦ inl (sym (reduce ∙ mod-eq_of_lt p))
    | no p ↦ inr (wrap (omega arith))
  ]
    where
      reduce : size_add i d % cap ≡ (i % cap + d) % cap
      reduce = mod-mod_of_dvd cap (i + d) m.divides ∙ sym (mod-add-mod i cap d)

      wrap : cap ≤ i % cap + d → i % cap + d ≡ size_add i d % cap + cap
      wrap le = omega (
        arith,
        reduce,
        mod-eq-sub-mod {n = i % cap + d} {m = cap} le,
        mod-lt i m.positive,
        mod-eq_of_lt {n = i % cap + d - cap} {m = cap} (omega (arith, mod-lt i m.positive)),
      )

  -- a write to a slot behind the window
  pub window-set :
      (mem : List ℕ) (i n d p x : ℕ)
      → Ahead cap (i % cap) d p
      → n ≤ d
      → d < cap
      → p < cap
      → window cap (set mem p x) i n ≡ window cap mem i n
  window-set mem i zero d p x w h k b = refl
  window-set mem i (suc n) zero p x w h k b = absurd (omega arith)
  window-set mem i (suc n) (suc d) p x w h k b =
      ap₂ ◌∷◌ (get_or-set_ne mem x 0 (omega (arith, mod-lt i m.positive))) (
        window-set mem (size_add i 1) n d p x (ground (arith, next_slot m i, mod-lt i m.positive))
          (omega arith) (omega arith) b)

pub window-snoc :
    (cap : ℕ) (mem : List ℕ) (i n : ℕ)
    → i < size_mod
    → window cap mem i (suc n) ≡ window cap mem i n ++ (get_or mem (size_add i n % cap) 0 ∷ [])
window-snoc cap mem i zero w = ap (λ t. get_or mem (t % cap) 0 ∷ []) (omega arith)
window-snoc cap mem i (suc n) w =
    ap (λ t. get_or mem (i % cap) 0 ∷ t)
      (window-snoc cap mem (size_add i 1) n (omega arith)
        ∙ ap (λ t. window cap mem (size_add i 1) n ++ (get_or mem (t % cap) 0 ∷ [])) (omega arith))

pub window-drop :
    (cap : ℕ) (mem : List ℕ) (i s n : ℕ)
    → i < size_mod
    → window cap mem (size_add i s) (n - s) ≡ drop s (window cap mem i n)
window-drop cap mem i zero n w = ap₂ (λ t u. window cap mem t u) (omega arith) (omega arith)
window-drop cap mem i (suc s) zero w =
    let none_left : 0 - suc s ≡ 0 = omega arith in
    ap (λ t. window cap mem (size_add i (suc s)) t) none_left
window-drop cap mem i (suc s) (suc n) w =
    ap₂ (λ t u. window cap mem t u) (omega arith) (omega arith)
    ∙ window-drop cap mem (size_add i 1) s n (omega arith)

pub window-take :
    (cap : ℕ) (mem : List ℕ) (i n k : ℕ) → window cap mem i (min n k) ≡ take n (window cap mem i k)
window-take cap mem i zero k = ap (λ t. window cap mem i t) (let e : min 0 k ≡ 0 = omega arith in e)
window-take cap mem i (suc n) zero =
    ap (λ t. window cap mem i t) (let e : min (suc n) 0 ≡ 0 = omega arith in e)
window-take cap mem i (suc n) (suc k) =
    ap (λ t. window cap mem i t) (let e : min (suc n) (suc k) ≡ suc (min n k) = omega arith in e)
    ∙ ap (λ t. get_or mem (i % cap) 0 ∷ t) (window-take cap mem (size_add i 1) n k)
