-- ===== src/PriorityList.antt =====
-- kern/plist.{h,c} and kern/plist_types.h: lists sorted by priority. A node or a list is a number; the
-- members `node` of nodes and `list` of lists are one store of links, and `prio_node` and `prio_list`
-- are another.
pub mod Place
pub mod Change
mod Tests
use x.Prelude.{
  ℕ, zero, suc, Bool, true, false, not, ◌&&◌, ◌||◌, ◌==◌, ltb, if◌then◌else◌, update, Option, none,
  some, ◌>>=◌,
}
use x.LinkedList
use x.LinkedList.{Links, empty, node_unlinked, insert_head, insert_before, insert_after}

pub record Plists : Type 0 where
  pub nodes : Links
  pub prio_nodes : Links
  pub priority : ℕ → ℕ

pub init : Plists → ℕ → Plists
init s plist = record s {
  nodes = LinkedList.init s.nodes plist;
  prio_nodes = LinkedList.init s.prio_nodes plist;
}

pub node_init : Plists → ℕ → ℕ → Plists
node_init s pnode priority = record {
  nodes = LinkedList.node_init s.nodes pnode;
  prio_nodes = LinkedList.node_init s.prio_nodes pnode;
  priority = update s.priority pnode priority;
}

pub set_priority : Plists → ℕ → ℕ → Plists
set_priority s pnode priority = record s { priority = update s.priority pnode priority }

-- the loop of `plist_add`, on fuel
pub search : ℕ → Plists → ℕ → ℕ → ℕ → Option ℕ
search zero s plist priority next = none
search (suc fuel) s plist priority next = elim (plist == next) [
  | true ↦ some next
  | false ↦ elim (ltb priority (s.priority next)) [
    | true ↦ some next
    | false ↦ search fuel s plist priority (s.prio_nodes.next next)
  ]
]

-- what follows the loop
pub link : Plists → ℕ → ℕ → ℕ → Plists
link s plist pnode next = record s {
  prio_nodes =
      if plist == next || not (s.priority pnode == s.priority next)
      then insert_before s.prio_nodes pnode next
      else LinkedList.init s.prio_nodes pnode;
  nodes = insert_before s.nodes pnode next;
}

pub add : ℕ → Plists → ℕ → ℕ → Option Plists
add fuel s plist pnode =
    if empty s.nodes plist
    then some (record s {
      nodes = insert_head s.nodes plist pnode;
      prio_nodes = insert_head s.prio_nodes plist pnode;
    })
    else (search fuel s plist (s.priority pnode) (s.prio_nodes.next plist) >>= λ next.
        some (link s plist pnode next))

-- the members `prio_node` in `plist_remove`
abbrev pub remove_prio : Plists → ℕ → ℕ → Links
remove_prio s plist pnode =
    let next = s.nodes.next pnode in
    LinkedList.remove
      (if not (plist == next) && node_unlinked s.prio_nodes next
        then insert_after s.prio_nodes pnode next
        else s.prio_nodes)
      pnode

pub remove : Plists → ℕ → ℕ → Plists
remove s plist pnode = record s {
  prio_nodes = if node_unlinked s.prio_nodes pnode then s.prio_nodes else remove_prio s plist pnode;
  nodes = LinkedList.remove s.nodes pnode;
}
