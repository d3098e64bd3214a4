-- ===== src/PriorityList/Tests.antt =====
-- A priority list of one node, to which another of the same priority is added.
use x.Prelude.{ℕ, ◌≡◌, ◌≢◌, inl, inr, [], ◌∷◌, Mem, some, update, arith}
use x.LinkedList
use x.LinkedList.{Links}
use x.LinkedList.Insert.{insert_head_lem}
use x.PriorityList.{Plists, init, add, remove}
use x.PriorityList.Change.{IsPlist, init-IsPlist, add_sorted, remove_sorted}

abbrev priorities : ℕ → ℕ
priorities = update (update (update (λ u. 0) 2 7) 3 7) 4 5

abbrev blank : Plists
blank = record {
  nodes = record { prev = λ u. 0; next = λ u. 0 };
  prio_nodes = record { prev = λ u. 0; next = λ u. 0 };
  priority = priorities;
}

abbrev fresh : Plists
fresh = init blank 1

out_of_one : ¬ Mem 2 (1 ∷ [])
out_of_one m = elim m [ inl e ↦ omega (arith, e) | inr bad ↦ bad ]

out_of_two : ¬ Mem 3 (1 ∷ 2 ∷ [])
out_of_two m = elim m [
  | inl e ↦ omega (arith, e)
  | inr m' ↦ elim m' [ inl e ↦ omega (arith, e) | inr bad ↦ bad ]
]

abbrev one : Plists
one = record {
  nodes = LinkedList.insert_head fresh.nodes 1 2;
  prio_nodes = LinkedList.insert_head fresh.prio_nodes 1 2;
  priority = priorities;
}

one-IsPlist : IsPlist one 1 (2 ∷ [])
one-IsPlist = record {
  list = insert_head_lem fresh.nodes 1 2 [] (init-IsPlist blank 1).list out_of_one;
  prio_list = insert_head_lem fresh.prio_nodes 1 2 [] (init-IsPlist blank 1).prio_list out_of_one;
  sorted = ((λ u m. absurd m), tt);
}

add_sorted_example :
    (s' : Plists) × (add 2 one 1 3 ≡ some s')
    × IsPlist s' 1 (2 ∷ 3 ∷ [])
    × (s'.priority ≡ priorities)
add_sorted_example = add_sorted 2 one 1 3 (2 ∷ []) one-IsPlist out_of_two (omega arith)

not_null : (u : ℕ) → Mem u (1 ∷ 2 ∷ []) → u ≢ 0
not_null u (inl e) z = omega (arith, e, z)
not_null u (inr (inl e)) z = omega (arith, e, z)
not_null u (inr (inr bad)) z = bad

remove_sorted_example : IsPlist (remove one 1 2) 1 []
remove_sorted_example = remove_sorted one 1 2 [] [] one-IsPlist not_null
