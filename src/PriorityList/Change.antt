-- ===== src/PriorityList/Change.antt =====
-- Adding and removing nodes of a priority list.
use x.Prelude.{
  ℕ, ◌<◌, ◌≡◌, ◌≢◌, refl, sym, subst, inl, inr, true, false, not, ◌||◌, some, List, [], ◌∷◌, ◌++◌,
  ◌==◌, ltb, Mem, Mem-widen, right_of, left_of, length, Bool-cases, eq→==, ne→==, arith,
}
use x.LinkedList
use x.LinkedList.{Links, insert_before}
use x.LinkedList.Chain.{IsList, first_or, last_or, last_or-Mem, parts, Linked, around}
use x.LinkedList.Insert.{insert_before_gap, insert_head_lem, remove_lem}
use x.LinkedList.Join.{empty-nil, empty-cons, init-IsList}
use x.PriorityList.{Plists, search, link, init, add, remove}
use x.PriorityList.Place.{front, back, Sorted, front-append-back, placed-Sorted, search_lem}

-- A priority list holds the nodes of a sorted sequence, in both of its lists.
pub record IsPlist (s : Plists) (h : ℕ) (xs : List ℕ) : Type 0 where
  pub list : IsList s.nodes h xs
  pub prio_list : IsList s.prio_nodes h xs
  pub sorted : Sorted s.priority xs

pub init-IsPlist : (s : Plists) (h : ℕ) → IsPlist (init s h) h []
unfolding init
init-IsPlist s h = record {
  list = init-IsList s.nodes h;
  prio_list = init-IsList s.prio_nodes h;
  sorted = tt;
}

-- What the loop stopped at has another priority, or is the end.
stops :
    (priority : ℕ → ℕ) (h pr : ℕ) (xs : List ℕ)
    → (h == first_or (back priority pr xs) h
        || not (pr == priority (first_or (back priority pr xs) h)))
      ≡ true
stops priority h pr [] = rw (eq→== h h refl)
stops priority h pr (x ∷ xs) = elim (Bool-cases (ltb pr (priority x))) [
  | inr e ↦ rw e (stops priority h pr xs)
  | inl e ↦
      rw e (elim (Bool-cases (h == x)) [ inl b ↦ rw b | inr b ↦ rw (b, differ pr (priority x) e) ])
]
  where
    differ : (a b : ℕ) → ltb a b ≡ true → (a == b) ≡ false
    differ a b e = ground arith

-- With more fuel than nodes, adding a node that is not in a priority list succeeds and puts it after
-- all nodes of its priority and of those below, and before the others; the list stays sorted.
pub add_sorted :
    (k : ℕ) (s : Plists) (h n : ℕ) (xs : List ℕ)
    → IsPlist s h xs
    → (¬ Mem n (h ∷ xs))
    → length xs < k
    → (s' : Plists) × (add k s h n ≡ some s')
      × IsPlist s' h (front s.priority (s.priority n) xs ++ (n ∷ back s.priority (s.priority n) xs))
      × (s'.priority ≡ s.priority)
unfolding add link
add_sorted k s h n [] r out fuel = (
  record s {
    nodes = LinkedList.insert_head s.nodes h n;
    prio_nodes = LinkedList.insert_head s.prio_nodes h n;
  },
  rw (empty-nil s.nodes h r.list),
  record {
    list = insert_head_lem s.nodes h n [] r.list out;
    prio_list = insert_head_lem s.prio_nodes h n [] r.prio_list out;
    sorted = ((λ u m. absurd m), tt);
  },
  refl,
)
add_sorted k s h n (x ∷ xs) r out fuel =
    let pr : ℕ = s.priority n in
    let before : List ℕ = front s.priority pr (x ∷ xs) in
    let after : List ℕ = back s.priority pr (x ∷ xs) in
    let next : ℕ = first_or after h in
    let whole : x ∷ xs ≡ before ++ after = sym (front-append-back s.priority pr (x ∷ xs)) in
    let out' : ¬ Mem n (h ∷ (before ++ after)) = subst (λ l. ¬ Mem n (h ∷ l)) whole out in
    let found : search k s h pr (s.prio_nodes.next h) ≡ some next =
      search_lem k s h pr (x ∷ xs) r.prio_list fuel in
    (
      record s {
        prio_nodes = insert_before s.prio_nodes n next;
        nodes = insert_before s.nodes n next;
      },
      added k s h n next (empty-cons s.nodes h x xs r.list) found (stops s.priority h pr (x ∷ xs)),
      record {
        list =
            insert_before_gap s.nodes h n before after
              (subst (λ l. IsList s.nodes h l) whole r.list) out';
        prio_list =
            insert_before_gap s.prio_nodes h n before after
              (subst (λ l. IsList s.prio_nodes h l) whole r.prio_list) out';
        sorted = placed-Sorted s.priority n (x ∷ xs) r.sorted;
      },
      refl,
    )
  where
    added :
        (k : ℕ) (s : Plists) (h n next : ℕ)
        → LinkedList.empty s.nodes h ≡ false
        → search k s h (s.priority n) (s.prio_nodes.next h) ≡ some next
        → (h == next || not (s.priority n == s.priority next)) ≡ true
        → add k s h n
          ≡ some (record s {
            prio_nodes = insert_before s.prio_nodes n next;
            nodes = insert_before s.nodes n next;
          })
    added k s h n next e f g = rw (e, f, g)

rest-Sorted :
    (priority : ℕ → ℕ) (x : ℕ) (xs ys : List ℕ)
    → Sorted priority (xs ++ (x ∷ ys))
    → Sorted priority (xs ++ ys)
rest-Sorted priority x [] ys (least, s) = s
rest-Sorted priority x (v ∷ xs) ys (least, s) =
    ((λ u m. least u (Mem-widen u x xs ys m)), rest-Sorted priority x xs ys s)

-- The links of both lists where neither `prio_node` is null.
remove-both :
    (s : Plists) (h x q : ℕ)
    → s.nodes.next x ≡ q
    → LinkedList.node_unlinked s.prio_nodes x ≡ false
    → LinkedList.node_unlinked s.prio_nodes q ≡ false
    → remove s h x ≡ record s {
      prio_nodes = LinkedList.remove s.prio_nodes x;
      nodes = LinkedList.remove s.nodes x;
    }
unfolding remove
remove-both s h x q e f g = elim (Bool-cases (h == q)) [
  | inl b ↦ rw (f, e, b)
  | inr b ↦ rw (f, e, b, g)
]

back_link : (l : Links) (x : ℕ) (ys : List ℕ) (b : ℕ) → Linked l x ys b → l.prev (first_or ys b) ≡ x
back_link l x [] b (e, e') = e'
back_link l x (y ∷ ys) b ((e, e'), c) = e'

-- Removing a node of a priority list, where neither the head nor a node is null, takes it out of both
-- lists, and the list stays sorted.
pub remove_sorted :
    (s : Plists) (h x : ℕ) (xs ys : List ℕ)
    → IsPlist s h (xs ++ (x ∷ ys))
    → ((u : ℕ) → Mem u (h ∷ (xs ++ (x ∷ ys))) → u ≢ 0)
    → IsPlist (remove s h x) h (xs ++ ys)
remove_sorted s h x xs ys r not_null =
    let (behind, ahead) = around s.prio_nodes h x xs ys h r.prio_list.linked in
    let (behind', ahead') = around s.nodes h x xs ys h r.list.linked in
    let (o, (e, c)) = parts s.prio_nodes h xs (x ∷ ys) h r.prio_list.linked in
    let there : last_or h xs ≢ 0 = not_null (last_or h xs) (before (last_or-Mem h xs)) in
    let here : x ≢ 0 = not_null x (inr (right_of x xs (x ∷ ys) (inl refl))) in
    let shape : remove s h x ≡ record s {
      prio_nodes = LinkedList.remove s.prio_nodes x;
      nodes = LinkedList.remove s.nodes x;
    } =
      remove-both s h x (first_or ys h) ahead' (rw behind (ne→== (last_or h xs) 0 there))
        (rw (back_link s.prio_nodes x ys h c) (ne→== x 0 here)) in
    subst (λ k. IsPlist k h (xs ++ ys)) (sym shape)
      (record {
        list = (remove_lem s.nodes h x xs ys r.list).0;
        prio_list = (remove_lem s.prio_nodes h x xs ys r.prio_list).0;
        sorted = rest-Sorted s.priority x xs ys r.sorted;
      })
  where
    before : Mem (last_or h xs) (h ∷ xs) → Mem (last_or h xs) (h ∷ (xs ++ (x ∷ ys)))
    before (inl m) = inl m
    before (inr m) = inr (left_of (last_or h xs) xs (x ∷ ys) m)
