-- ===== src/LinkedList.antt =====
-- kern/list.h and kern/list_types.h: circular doubly linked lists. Addresses are numbers, null is 0,
-- and the `prev` and `next` members of all nodes and heads are two functions.
pub mod Chain
pub mod Gap
pub mod Insert
pub mod Join
pub mod Split
pub mod Walk
pub mod Rcu
mod Tests
use x.Prelude.{
  ℕ, zero, suc, Option, none, some, ◌>>=◌, Bool, true, false, not, ◌&&◌, ◌||◌, ◌==◌, if◌then◌else◌,
  update, List, [], ◌∷◌,
}

pub record Links : Type 0 where
  pub prev : ℕ → ℕ
  pub next : ℕ → ℕ

-- `u->next = v` and `u->prev = v`
abbrev pub set_next : Links → ℕ → ℕ → Links
set_next l u v = record l { next = update l.next u v }

abbrev pub set_prev : Links → ℕ → ℕ → Links
set_prev l u v = record l { prev = update l.prev u v }

pub init : Links → ℕ → Links
init l list = set_next (set_prev l list list) list list

pub node_init : Links → ℕ → Links
node_init l node = set_next (set_prev l node 0) node 0

abbrev pub node_unlinked : Links → ℕ → Bool
node_unlinked l node = l.prev node == 0

abbrev pub empty : Links → ℕ → Bool
empty l list = list == l.next list

pub singular : Links → ℕ → Bool
singular l list = not (empty l list) && l.next list == l.prev list

-- the assignments of `list_split`, in order
abbrev pub move_front : Links → ℕ → ℕ → ℕ → Links
move_front l list1 list2 node =
    let l₁ = set_next l list1 (l.next list2) in
    let l₂ = set_prev l₁ (l₁.next list1) list1 in
    let l₃ = set_prev l₂ list1 (l₂.prev node) in
    let l₄ = set_next l₃ (l₃.prev node) list1 in
    let l₅ = set_next l₄ list2 node in set_prev l₅ node list2

pub split : Links → ℕ → ℕ → ℕ → Links
split l list1 list2 node =
    if empty l list2 || l.next list2 == node || list2 == node
    then init l list1
    else move_front l list1 list2 node

abbrev pub append : Links → ℕ → ℕ → ℕ → ℕ → Links
append l list1 last1 first2 last2 =
    let l₁ = set_next l last1 first2 in
    let l₂ = set_prev l₁ first2 last1 in let l₃ = set_next l₂ last2 list1 in set_prev l₃ list1 last2

pub concat : Links → ℕ → ℕ → Links
concat l list1 list2 =
    if empty l list2 then l else append l list1 (l.prev list1) (l.next list2) (l.prev list2)

abbrev pub take_over : Links → ℕ → ℕ → Links
take_over l new_head old_head =
    let l₁ = set_next (set_prev l new_head (l.prev old_head)) new_head (l.next old_head) in
    let l₂ = set_prev l₁ (l₁.next new_head) new_head in set_next l₂ (l₂.prev new_head) new_head

pub set_head : Links → ℕ → ℕ → Links
set_head l new_head old_head =
    if empty l old_head then init l new_head else take_over l new_head old_head

-- `list_add`
pub add : Links → ℕ → ℕ → ℕ → Links
add l prev next node =
    let l₁ = set_prev l next node in
    let l₂ = set_next l₁ node next in let l₃ = set_next l₂ prev node in set_prev l₃ node prev

pub insert_head : Links → ℕ → ℕ → Links
insert_head l list node = add l list (l.next list) node

pub insert_tail : Links → ℕ → ℕ → Links
insert_tail l list node = add l (l.prev list) list node

pub insert_before : Links → ℕ → ℕ → Links
insert_before l node next = add l (l.prev next) next node

pub insert_after : Links → ℕ → ℕ → Links
insert_after l node prev = add l prev (l.next prev) node

pub remove : Links → ℕ → Links
remove l node =
    let l₁ = set_next l (l.prev node) (l.next node) in set_prev l₁ (l₁.next node) (l₁.prev node)

-- `list_rcu_add` and `list_rcu_remove`, as the states after each of their assignments: a reader may
-- run between any two of them.
pub rcu_add : Links → ℕ → ℕ → ℕ → List Links
rcu_add l prev next node =
    let l₁ = set_next l node next in
    let l₂ = set_prev l₁ node prev in
    let l₃ = set_next l₂ prev node in let l₄ = set_prev l₃ next node in l₁ ∷ l₂ ∷ l₃ ∷ l₄ ∷ []

pub rcu_remove : Links → ℕ → List Links
rcu_remove l node =
    let l₁ = set_prev l (l.next node) (l.prev node) in
    let l₂ = set_next l₁ (l₁.prev node) (l₁.next node) in l₁ ∷ l₂ ∷ []

pub rcu_insert_head : Links → ℕ → ℕ → List Links
rcu_insert_head l list node = rcu_add l list (l.next list) node

pub rcu_insert_tail : Links → ℕ → ℕ → List Links
rcu_insert_tail l list node = rcu_add l (l.prev list) list node

pub rcu_insert_before : Links → ℕ → ℕ → List Links
rcu_insert_before l node next = rcu_add l (l.prev next) next node

pub rcu_insert_after : Links → ℕ → ℕ → List Links
rcu_insert_after l node prev = rcu_add l prev (l.next prev) node

-- The nodes that `list_for_each` visits from `node` on, and `list_for_each_reverse`, on fuel.
pub walk : ℕ → Links → ℕ → ℕ → Option (List ℕ)
walk zero l list node = none
walk (suc fuel) l list node = elim (list == node) [
  | true ↦ some []
  | false ↦ walk fuel l list (l.next node) >>= λ nodes. some (node ∷ nodes)
]

pub walk_back : ℕ → Links → ℕ → ℕ → Option (List ℕ)
walk_back zero l list node = none
walk_back (suc fuel) l list node = elim (list == node) [
  | true ↦ some []
  | false ↦ walk_back fuel l list (l.prev node) >>= λ nodes. some (node ∷ nodes)
]
