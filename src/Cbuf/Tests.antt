-- ===== src/Cbuf/Tests.antt =====
-- Runs of the circular buffer, and each of its theorems at an input.
use x.Prelude.{◌≡◌, refl, true, false, none, some, [], ◌∷◌, arith, min, take, drop}
use x.Prelude.Words.{size_sub}
use x.Errno.{success}
use x.Cbuf.{
  Cbuf, init, write, read, push, pushb, pop, popb, clear, update_start, range_valid, trim, store,
  finish, copy_in, copy_out, load, consume,
}
use x.Cbuf.Inv.{IsValid}
use x.Cbuf.Reference.{put, put_all, write-eq-put_all}
use x.Cbuf.Refine.{push_refines}
use x.Cbuf.Contents.{contents}
use x.Cbuf.Pop.{popped, read_lem, pop_refines}
use x.Cbuf.Empty.{write_empty_faults, read_empty_faults}
use x.Cbuf.Fifo

-- four bytes at the address 0x1000, holding 7, 8 and 9 across the wrap of the indexes at 2 ^ 64
abbrev sample : Cbuf
sample = record {
  buf = 0x1000;
  mem = 8 ∷ 9 ∷ 0 ∷ 7 ∷ [];
  capacity = 4;
  start = size_sub 0 1;
  end = 2;
}

sample-IsValid : IsValid sample
sample-IsValid = record {
  storage = record {
    order = 2;
    power = refl;
    small = omega arith;
    filled = refl;
    not_null = omega arith;
    in_space = omega arith;
  };
  start_word = omega arith;
  end_word = omega arith;
  fits = omega arith;
}

contents-sample : contents sample ≡ 7 ∷ 8 ∷ 9 ∷ []
contents-sample = refl

program : Unit {0}
unfolding write read push pushb pop popb clear update_start range_valid trim store finish copy_in
    copy_out load consume put put_all init
program = tt

-- five bytes pushed into a buffer of four: the last four stay
push_erases :
    push sample (1 ∷ 2 ∷ 3 ∷ 4 ∷ 5 ∷ []) 5 true
    ≡ some (success, put_all sample 2 (1 ∷ 2 ∷ 3 ∷ 4 ∷ 5 ∷ []))
unfolding program
push_erases = refl

pop_two : pop sample 2 ≡ some (success, 2, 7 ∷ 8 ∷ [], record sample { start = 1 })
unfolding program
pop_two = refl

write-eq-put_all_example :
    (write sample 1 (4 ∷ 5 ∷ 6 ∷ []) 3 ≡ some (success, put_all sample 1 (4 ∷ 5 ∷ 6 ∷ [])))
    × IsValid (put_all sample 1 (4 ∷ 5 ∷ 6 ∷ []))
write-eq-put_all_example =
    write-eq-put_all sample 1 (4 ∷ 5 ∷ 6 ∷ []) sample-IsValid (omega arith) (omega arith)
      (omega arith) (omega arith)

push_refines_example :
    (c' : Cbuf) × (push sample (1 ∷ 2 ∷ []) 2 false
      ≡ some ((Fifo.push 4 (7 ∷ 8 ∷ 9 ∷ []) (1 ∷ 2 ∷ []) false).0, c'))
    × IsValid c'
    × (contents c' ≡ (Fifo.push 4 (7 ∷ 8 ∷ 9 ∷ []) (1 ∷ 2 ∷ []) false).1)
push_refines_example =
    push_refines sample (1 ∷ 2 ∷ []) false sample-IsValid (omega arith) (omega arith)

pop_refines_example :
    (c' : Cbuf) × (pop sample 2
      ≡ some
          ((Fifo.pop (7 ∷ 8 ∷ 9 ∷ []) 2).0, popped sample 2, (Fifo.pop (7 ∷ 8 ∷ 9 ∷ []) 2).1, c'))
    × IsValid c'
    × (contents c' ≡ (Fifo.pop (7 ∷ 8 ∷ 9 ∷ []) 2).2)
pop_refines_example = pop_refines sample 2 sample-IsValid (omega arith)

read_lem_example : read sample 1 5 ≡ some (success, min 5 1, take 5 (drop 2 (7 ∷ 8 ∷ 9 ∷ [])))
read_lem_example = read_lem sample 1 5 sample-IsValid (omega arith) (omega arith) (omega arith)

write_empty_faults_example : write sample 0 [] 0 ≡ none
write_empty_faults_example =
    write_empty_faults sample 0 sample-IsValid (omega arith) (omega arith) refl

read_empty_faults_example : read sample 0 0 ≡ none
read_empty_faults_example =
    read_empty_faults sample 0 sample-IsValid (omega arith) (omega arith) refl
