-- ===== src/LinkedList/Tests.antt =====
-- A list of two nodes.
use x.Prelude.{ℕ, ◌≡◌, refl, [], ◌∷◌, Mem, some, inl, inr, ◌<◌, arith}
use x.LinkedList.{Links, init, insert_tail, add, split, walk, rcu_add, rcu_remove}
use x.LinkedList.Chain.{IsList}
use x.LinkedList.Insert.{insert_tail_lem, add_lem}
use x.LinkedList.Join.{init-IsList}
use x.LinkedList.Split.{split_lem}
use x.LinkedList.Walk.{walk_lem}
use x.LinkedList.Rcu.{Reads, rcu_add_lem, rcu_remove_lem}

abbrev blank : Links
blank = record { prev = λ u. 0; next = λ u. 0 }

abbrev two : Links
two = insert_tail (insert_tail (init blank 1) 1 2) 1 3

walk-two : walk 3 two 1 (two.next 1) ≡ some (2 ∷ 3 ∷ [])
unfolding walk init insert_tail add
walk-two = refl

out_of_one : ¬ Mem 2 (1 ∷ [])
out_of_one m = elim m [ inl e ↦ omega (arith, e) | inr bad ↦ bad ]

out_of_two : ¬ Mem 3 (1 ∷ 2 ∷ [])
out_of_two m = elim m [
  | inl e ↦ omega (arith, e)
  | inr m' ↦ elim m' [ inl e ↦ omega (arith, e) | inr bad ↦ bad ]
]

out_of_three : (n : ℕ) → 3 < n → ¬ Mem n (1 ∷ 2 ∷ 3 ∷ [])
out_of_three n l m = elim m [
  | inl e ↦ omega (arith, e)
  | inr m' ↦ elim m' [
    | inl e ↦ omega (arith, e)
    | inr m'' ↦ elim m'' [ inl e ↦ omega (arith, e) | inr bad ↦ bad ]
  ]
]

two-IsList : IsList two 1 (2 ∷ 3 ∷ [])
two-IsList =
    insert_tail_lem (insert_tail (init blank 1) 1 2) 1 3 (2 ∷ [])
      (insert_tail_lem (init blank 1) 1 2 [] (init-IsList blank 1) out_of_one) out_of_two

add_lem_example : IsList (add two 2 3 4) 1 (2 ∷ 4 ∷ 3 ∷ [])
add_lem_example = add_lem two 1 4 (2 ∷ []) (3 ∷ []) two-IsList (out_of_three 4 (omega arith))

split_lem_example : IsList (split two 4 1 3) 4 (2 ∷ []) × IsList (split two 4 1 3) 1 (3 ∷ [])
split_lem_example = split_lem two 4 1 3 (2 ∷ []) [] two-IsList (out_of_three 4 (omega arith))

walk_lem_example : walk 3 two 1 (two.next 1) ≡ some (2 ∷ 3 ∷ [])
walk_lem_example = walk_lem 3 two 1 (2 ∷ 3 ∷ []) two-IsList (omega arith)

rcu_add_lem_example :
    (l₁ l₂ l₃ l₄ : Links) × (rcu_add two 2 3 4 ≡ l₁ ∷ l₂ ∷ l₃ ∷ l₄ ∷ [])
    × Reads l₁ 1 (2 ∷ 3 ∷ []) 1
    × Reads l₂ 1 (2 ∷ 3 ∷ []) 1
    × Reads l₃ 1 (2 ∷ 4 ∷ 3 ∷ []) 1
    × Reads l₄ 1 (2 ∷ 4 ∷ 3 ∷ []) 1
    × IsList l₄ 1 (2 ∷ 4 ∷ 3 ∷ [])
rcu_add_lem_example =
    rcu_add_lem two 1 4 (2 ∷ []) (3 ∷ []) two-IsList (out_of_three 4 (omega arith))

rcu_remove_lem_example :
    (l₁ l₂ : Links) × (rcu_remove two 2 ≡ l₁ ∷ l₂ ∷ [])
    × Reads l₁ 1 (2 ∷ 3 ∷ []) 1
    × Reads l₂ 1 (3 ∷ []) 1
    × Reads l₂ 2 (3 ∷ []) 1
    × IsList l₂ 1 (3 ∷ [])
rcu_remove_lem_example = rcu_remove_lem two 1 2 [] (3 ∷ []) two-IsList
