-- ===== src/PcQueue/Tests.antt =====
-- pcqueue_test.cc: concrete runs of two threads, and the theorems on them.
use google_gtags.Prelude.{ℕ, List, true, ◌+◌, ◌≤◌, [], ◌∷◌, ◌++◌, ◌≡◌, ◌≢◌, refl, length}
use google_gtags.PcQueue.{
  Phase, Queue, idle, getting, try_put, counting, new_queue, Run, begins, goes_on, first, later,
  all_idle, pushed, popped, calls_put, put_takes, put_locks, put_pushes, put_unlocks, put_posts,
  calls_get, get_takes, get_locks, try_put_takes, count_locks, try_put_gives_up,
}
use google_gtags.PcQueue.Invariant.{holds, claims, total}
use google_gtags.PcQueue.Safety.{Run-bounded, Run-get_finds, Run-fifo, Contended-miscounts, replace}

-- The first thread has put 7, and the second is about to take it.
abbrev one_inside : Queue ℕ
one_inside = record { queue = 7 ∷ []; mu = true; full = 0; empty = 1 }

abbrev one_getting : List (Phase ℕ)
one_getting = idle ∷ getting ∷ []

abbrev AboutToGet : Type 0
AboutToGet = Run ℕ 2 2 (7 ∷ []) [] one_inside one_getting

put_then_get : AboutToGet
unfolding new_queue all_idle pushed popped
put_then_get =
    goes_on
      (goes_on
        (goes_on
          (goes_on
            (goes_on
              (goes_on
                (goes_on
                  (goes_on (goes_on begins (first (calls_put 7))) (first (put_takes 7 1 refl)))
                  (first (put_locks 7 refl)))
                (first (put_pushes 7)))
              (first put_unlocks))
            (first put_posts))
          (later (first calls_get)))
        (later (first (get_takes 0 refl))))
      (later (first (get_locks refl)))

Run-bounded_example : (total holds one_getting ≤ 1) × (length one_inside.queue ≤ 2)
Run-bounded_example = Run-bounded put_then_get

Run-get_finds_example : one_inside.queue ≢ []
Run-get_finds_example = Run-get_finds put_then_get 1 refl

Run-fifo_example : 7 ∷ [] ≡ [] ++ one_inside.queue
Run-fifo_example = Run-fifo put_then_get

-- The first thread counts, with the mutex, and the second has its slot for a `TryPut`.
abbrev while_counting : Queue ℕ
while_counting = record { queue = []; mu = true; full = 0; empty = 1 }

abbrev one_trying : List (Phase ℕ)
one_trying = counting ∷ try_put 9 ∷ []

count_then_try : Run ℕ 2 2 [] [] while_counting one_trying
unfolding new_queue all_idle pushed popped
count_then_try =
    goes_on (goes_on begins (first (count_locks refl))) (later (first (try_put_takes 9 1 refl)))

Contended-miscounts_example : 0 ≢ 1 + total claims (replace one_trying 1 idle)
Contended-miscounts_example = Contended-miscounts count_then_try 1 refl (try_put_gives_up 9 refl)
