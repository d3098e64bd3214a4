-- ===== src/Work/Queue.antt =====
-- The queues of kern/work.h. A work is a number, and its `next` member is kept in a store of links.
pub mod Chain
pub mod Sequence
use x.Prelude.{
  ℕ, ◌+◌, ◌-◌, ◌%◌, ◌^◌, Bool, true, false, Option, none, some, ◌==◌, if◌then◌else◌, update,
}

-- `first` and `last` are null pointers where they are `none`; `nr_works` is an `unsigned int`.
pub record Queue : Type 0 where
  pub first : Option ℕ
  pub last : Option ℕ
  pub nr_works : ℕ

pub record Linked : Type 0 where
  pub next : ℕ → Option ℕ
  pub queue : Queue

abbrev pub uint_mod : ℕ
uint_mod = 2 ^ 32

abbrev pub empty_queue : Queue
empty_queue = record { first = none; last = none; nr_works = 0 }

abbrev pub points_to : Option ℕ → ℕ → Bool
points_to none w = false
points_to (some v) w = v == w

-- the test and the two branches of `work_queue_push`
abbrev pub link_last : (ℕ → Option ℕ) → Queue → ℕ → Linked
link_last next q w = elim q.last [
  | none ↦ record { next = next; queue = record q { first = some w } }
  | some z ↦ record { next = update next z (some w); queue = q }
]

pub push : (ℕ → Option ℕ) → Queue → ℕ → Linked
push next q w =
    let r : Linked = link_last (update next w none) q w in
    record r { queue = record (r.queue) { last = some w; nr_works = (q.nr_works + 1) % uint_mod } }

pub record Popped : Type 0 where
  pub work : ℕ
  pub rest : Queue

-- An empty queue is a null pointer dereferenced.
pub pop : (ℕ → Option ℕ) → Queue → Option Popped
pop next q = elim q.first [
  | none ↦ none
  | some w ↦ some (record {
    work = w;
    rest = record {
      first = next w;
      last = if points_to q.last w then none else q.last;
      nr_works = (q.nr_works + uint_mod - 1) % uint_mod;
    };
  })
]

pub concat : (ℕ → Option ℕ) → Queue → Queue → Option Linked
concat next q r =
    if r.nr_works == 0
    then some (record { next = next; queue = q })
    else (if q.nr_works == 0 then some (record { next = next; queue = r }) else elim q.last [
      | none ↦ none
      | some z ↦ some (record {
        next = update next z r.first;
        queue = record {
          first = q.first;
          last = r.last;
          nr_works = (q.nr_works + r.nr_works) % uint_mod;
        };
      })
    ])
