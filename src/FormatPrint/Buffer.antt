-- ===== src/FormatPrint/Buffer.antt =====
-- What is in the buffer after formatted output.
use mathlib.Core.List.{append_assoc}
use x.Prelude.{
  ℕ, zero, suc, ◌+◌, ◌-◌, ◌<◌, ◌≤◌, ◌≡◌, refl, sym, ap, ap₂, ◌∙◌, inl, inr, true, none, Bool-cases,
  ne→==, if◌then◌else◌, List, [], ◌∷◌, ◌++◌, some, lt→ltb, nlt→ltb, ◌==◌, set, take, drop, length,
  length-append, arith,
}
use x.FormatPrint.{Output, output_init, no_limit, produce, produce_all, finalize}

set_at :
    (ws : List ℕ) (x c : ℕ) (rest : List ℕ)
    → set (ws ++ (x ∷ rest)) (length ws) c ≡ ws ++ (c ∷ rest)
set_at [] x c rest = refl
set_at (w ∷ ws) x c rest = ap (λ t. w ∷ t) (set_at ws x c rest)

abbrev at : List ℕ → ℕ → ℕ → Output
at buffer produced end = record { buffer = buffer; produced = produced; end = some end }

-- Past the end only the count grows.
full :
    (cs buffer : List ℕ) (produced end : ℕ)
    → end ≤ produced
    → produce_all (at buffer produced end) cs ≡ at buffer (produced + length cs) end
unfolding produce produce_all
full [] buffer produced end h = ap (λ p. at buffer p end) (omega arith)
full (c ∷ cs) buffer produced end h =
    rw (nlt→ltb produced end (λ l. absurd (omega (arith, l))), produce_all)
      (full cs buffer (produced + 1) end (omega arith) ∙ ap (λ p. at buffer p end) (omega arith))

produce-inside : (b : List ℕ) (p e c : ℕ) → p < e → produce (at b p e) c ≡ at (set b p c) (p + 1) e
unfolding produce
produce-inside b p e c h = rw (lt→ltb p e h)

finalize-inside : (b : List ℕ) (p e : ℕ) → p < e → finalize (at b p e) ≡ at (set b p 0) p e
unfolding finalize
finalize-inside b p e h = rw (lt→ltb p e h)

finalize-outside : (b : List ℕ) (p e : ℕ) → e ≤ p → finalize (at b p e) ≡ at (set b e 0) p e
unfolding finalize
finalize-outside b p e h = rw (nlt→ltb p e (λ l. absurd (omega (arith, l))))

-- With `room` bytes left before the end, after those of `ws`.
filled :
    (cs ws rest : List ℕ) (room n end : ℕ)
    → n ≡ length ws
    → end ≡ n + room
    → room < length rest
    → finalize (produce_all (at (ws ++ rest) n end) cs)
      ≡ at
          (ws ++ (take room cs ++ (0 ∷ drop (suc (length (take room cs))) rest)))
          (n + length cs)
          end
unfolding produce_all
filled cs ws [] room n end e f h = absurd (omega arith)
filled cs ws (x ∷ rest) zero n end e f h =
    let here : end ≡ length ws = omega arith in
    ap finalize (full cs (ws ++ (x ∷ rest)) n end (omega arith))
    ∙ finalize-outside (ws ++ (x ∷ rest)) (n + length cs) end (omega arith)
    ∙ ap (λ b. at b (n + length cs) end) (rw here (set_at ws x 0 rest))
filled [] ws (x ∷ rest) (suc room) n end e f h =
    finalize-inside (ws ++ (x ∷ rest)) n end (omega arith)
    ∙ ap₂ (λ b p. at b p end) (rw e (set_at ws x 0 rest)) (omega arith)
filled (c ∷ cs) ws (x ∷ rest) (suc room) n end e f h =
    let more : length (ws ++ (c ∷ [])) ≡ length ws + 1 = length-append ws (c ∷ []) in
    let b : set (ws ++ (x ∷ rest)) n c ≡ (ws ++ (c ∷ [])) ++ rest =
      rw e (set_at ws x c rest ∙ sym (append_assoc ws (c ∷ []) rest)) in
    ap (λ o. finalize (produce_all o cs)) (produce-inside (ws ++ (x ∷ rest)) n end c (omega arith))
    ∙ ap (λ t. finalize (produce_all (at t (n + 1) end) cs)) b
    ∙ filled cs (ws ++ (c ∷ [])) rest room (n + 1) end (omega arith) (omega arith) (omega arith)
    ∙ ap₂ (λ t p. at t p end)
        (append_assoc ws (c ∷ []) (take room cs ++ (0 ∷ drop (suc (length (take room cs))) rest)))
        (omega arith)

-- Output into a buffer of `suc room` bytes at least writes what fits before the last of them, then a
-- null byte, and nothing past it, and counts all characters that were to be written.
pub print_lem :
    (buffer cs : List ℕ) (room : ℕ)
    → room < length buffer
    → finalize (produce_all (output_init buffer (suc room)) cs) ≡ record {
      buffer = take room cs ++ (0 ∷ drop (suc (length (take room cs))) buffer);
      produced = length cs;
      end = some room;
    }
unfolding output_init
print_lem buffer cs room h =
    ap (λ e. finalize (produce_all (record { buffer = buffer; produced = 0; end = e }) cs))
      (last_of room)
    ∙ filled cs [] buffer room 0 room refl (omega arith) h
    ∙ ap
        (λ p. record {
          buffer = take room cs ++ (0 ∷ drop (suc (length (take room cs))) buffer);
          produced = p;
          end = some room;
        })
        (omega arith)
  where
    same : (n : ℕ) → (suc n == no_limit) ≡ true → no_limit - 1 ≡ n
    same n e = ground arith

    last_of :
        (n : ℕ)
        → (if suc n == 0
            then none
            else if suc n == no_limit
            then some (no_limit - 1)
            else some (suc n - 1))
          ≡ some n
    last_of n =
        rw (ne→== (suc n) 0 (λ e. absurd (omega (arith, e))))
          (elim (Bool-cases (suc n == no_limit)) [
            | inl e ↦ rw e (ap some (same n e))
            | inr e ↦ rw e (ap some (omega arith))
          ])
