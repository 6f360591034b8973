-- ===== src/PcQueue/Invariant.antt =====
-- pcqueue.h: the semaphores count the slots and the elements, up to what the threads have under way.
use google_gtags.Prelude.{
  ℕ, zero, suc, ◌+◌, Bool, true, false, List, [], ◌∷◌, ◌≡◌, refl, length, length-append, arith, ap,
}
use google_gtags.PcQueue.{
  Queue, Phase, idle, put, putting, has_put, leaves_put, get, waits_to_get, try_get, getting,
  has_got, counting, Event, new_queue, Step, Move, first, later, all_idle, Run, begins, goes_on,
  calls_put, put_takes, put_locks, try_put_takes, try_put_fails, try_put_locks, put_pushes,
  put_unlocks, put_posts, calls_get, get_takes, get_locks, try_get_takes, try_get_fails,
  try_get_locks, get_pops, get_unlocks, get_posts, count_locks, count_unlocks,
}

-- How many threads hold a mutex that is in this state.
abbrev pub held : Bool → ℕ
held true = 1
held false = 0

module _ {A : Type 0} where
  -- The thread has the mutex.
  abbrev pub holds : Phase A → ℕ
  holds (putting x) = 1
  holds has_put = 1
  holds getting = 1
  holds has_got = 1
  holds counting = 1
  holds _ = 0

  -- The thread has taken from one semaphore and has not posted the other.
  abbrev pub uses : Phase A → ℕ
  uses idle = 0
  uses (put x) = 0
  uses get = 0
  uses counting = 0
  uses _ = 1

  -- An element is in the queue that `full_` does not count: it is not posted yet, or is claimed.
  abbrev pub claims : Phase A → ℕ
  claims has_put = 1
  claims leaves_put = 1
  claims waits_to_get = 1
  claims try_get = 1
  claims getting = 1
  claims _ = 0

  abbrev pub total : (Phase A → ℕ) → List (Phase A) → ℕ
  total w [] = 0
  total w (p ∷ ps) = w p + total w ps

  -- The mutex has one holder while it is locked, slots are neither made nor lost, and each element of
  -- the queue is counted once.
  pub record Counts (capacity : ℕ) (s : Queue A) (h u c : ℕ) : Type 0 where
    pub lock : h ≡ held s.mu
    pub slots : s.empty + s.full + u ≡ capacity
    pub elements : length s.queue ≡ s.full + c

  -- A step of one thread, with the counts of all the others.
  Step-Counts :
      {s t : Queue A} {p q : Phase A} {e : Event A} (n h u c : ℕ)
      → Step A s p e t q
      → Counts n s (holds p + h) (uses p + u) (claims p + c)
      → Counts n t (holds q + h) (uses q + u) (claims q + c)
  Step-Counts n h u c (calls_put x) k = k
  Step-Counts n h u c (put_takes x e r) k = record {
    lock = k.lock;
    slots = ground (arith, k.slots);
    elements = k.elements;
  }
  Step-Counts n h u c (put_locks x r) k = record {
    lock = ground (arith, k.lock);
    slots = k.slots;
    elements = k.elements;
  }
  Step-Counts n h u c (try_put_takes x e r) k = record {
    lock = k.lock;
    slots = ground (arith, k.slots);
    elements = k.elements;
  }
  Step-Counts n h u c (try_put_fails x r) k = k
  Step-Counts n h u c (try_put_locks x r) k = record {
    lock = ground (arith, k.lock);
    slots = k.slots;
    elements = k.elements;
  }
  Step-Counts {s} n h u c (put_pushes x) k = record {
    lock = k.lock;
    slots = k.slots;
    elements = ground (arith, k.elements, length-append s.queue (x ∷ []));
  }
  Step-Counts n h u c put_unlocks k = record {
    lock = ground (arith, k.lock);
    slots = k.slots;
    elements = k.elements;
  }
  Step-Counts n h u c put_posts k = record {
    lock = k.lock;
    slots = ground (arith, k.slots);
    elements = ground (arith, k.elements);
  }
  Step-Counts n h u c calls_get k = k
  Step-Counts n h u c (get_takes f r) k = record {
    lock = k.lock;
    slots = ground (arith, k.slots);
    elements = ground (arith, k.elements);
  }
  Step-Counts n h u c (get_locks r) k = record {
    lock = ground (arith, k.lock);
    slots = k.slots;
    elements = k.elements;
  }
  Step-Counts n h u c (try_get_takes f r) k = record {
    lock = k.lock;
    slots = ground (arith, k.slots);
    elements = ground (arith, k.elements);
  }
  Step-Counts n h u c (try_get_fails r) k = k
  Step-Counts n h u c (try_get_locks r) k = record {
    lock = ground (arith, k.lock);
    slots = k.slots;
    elements = k.elements;
  }
  Step-Counts n h u c (get_pops x xs r) k = record {
    lock = k.lock;
    slots = k.slots;
    elements = ground (arith, k.elements, ap length r);
  }
  Step-Counts n h u c get_unlocks k = record {
    lock = ground (arith, k.lock);
    slots = k.slots;
    elements = k.elements;
  }
  Step-Counts n h u c get_posts k = record {
    lock = k.lock;
    slots = ground (arith, k.slots);
    elements = k.elements;
  }
  Step-Counts n h u c (count_locks r) k = record {
    lock = ground (arith, k.lock);
    slots = k.slots;
    elements = k.elements;
  }
  Step-Counts n h u c count_unlocks k = record {
    lock = ground (arith, k.lock);
    slots = k.slots;
    elements = k.elements;
  }

  -- The same counts, added up in another order.
  recount :
      {n h u c h' u' c' : ℕ} {s : Queue A}
      → Counts n s h u c
      → h' ≡ h
      → u' ≡ u
      → c' ≡ c
      → Counts n s h' u' c'
  recount k a b d = record {
    lock = omega (arith, k.lock);
    slots = omega (arith, k.slots);
    elements = omega (arith, k.elements);
  }

  Move-Counts :
      {s t : Queue A} {ps qs : List (Phase A)} {e : Event A} (n h u c : ℕ)
      → Move A s ps e t qs
      → Counts n s (total holds ps + h) (total uses ps + u) (total claims ps + c)
      → Counts n t (total holds qs + h) (total uses qs + u) (total claims qs + c)
  Move-Counts n h u c (first {p} {q} {e} {t} {ps} st) k =
      recount
        (Step-Counts n (total holds ps + h) (total uses ps + u) (total claims ps + c) st
          (recount k (omega arith) (omega arith) (omega arith)))
        (omega arith) (omega arith) (omega arith)
  Move-Counts n h u c (later {p} {e} {t} {ps} {qs} mv) k =
      recount
        (Move-Counts n (holds p + h) (uses p + u) (claims p + c) mv
          (recount k (omega arith) (omega arith) (omega arith)))
        (omega arith) (omega arith) (omega arith)

  idle-total : (w : Phase A → ℕ) (n : ℕ) → w idle ≡ 0 → total w (all_idle A n) ≡ 0
  unfolding all_idle
  idle-total w zero h = refl
  idle-total w (suc n) h = omega (arith, idle-total w n h)

  pub Run-Counts :
      {capacity n : ℕ} {ins outs : List A} {s : Queue A} {ps : List (Phase A)}
      → Run A capacity n ins outs s ps
      → Counts capacity s (total holds ps) (total uses ps) (total claims ps)
  unfolding new_queue
  Run-Counts {capacity} {n} begins = record {
    lock = idle-total holds n refl;
    slots = omega (arith, idle-total uses n refl);
    elements = omega (arith, idle-total claims n refl);
  }
  Run-Counts {capacity} {ps} (goes_on run mv) =
      recount
        (Move-Counts capacity 0 0 0 mv
          (recount (Run-Counts run) (omega arith) (omega arith) (omega arith)))
        (omega arith) (omega arith) (omega arith)
