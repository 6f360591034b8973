-- ===== src/PcQueue/Safety.antt =====
-- pcqueue.h: what holds of every run without contention for the mutex in `TryPut` and `TryGet`, and
-- what a `TryPut` does that meets a locked mutex.
use google_gtags.Prelude.{
  ℕ, zero, suc, ◌+◌, ◌≤◌, Bool, true, false, List, [], ◌∷◌, ◌++◌, ◌≡◌, ◌≢◌, refl, length, arith,
  append_assoc, ap, ◌∙◌, sym, get_elem?, some,
}
use google_gtags.PcQueue.{
  Queue, Phase, idle, put, waits_to_put, try_put, putting, has_put, leaves_put, get, waits_to_get,
  try_get, getting, has_got, leaves_get, counting, Event, new_queue, Step, Contended, Move, first,
  later, Run, begins, goes_on, pushed, popped, try_put_gives_up, try_get_gives_up, calls_put,
  put_takes, put_locks, try_put_takes, try_put_fails, try_put_locks, put_pushes, put_unlocks,
  put_posts, calls_get, get_takes, get_locks, try_get_takes, try_get_fails, try_get_locks, get_pops,
  get_unlocks, get_posts, count_locks, count_unlocks,
}
use google_gtags.PcQueue.Invariant.{holds, uses, claims, total, held, Counts, Run-Counts}

held_le : (b : Bool) → held b ≤ 1
held_le true = omega arith
held_le false = omega arith

module _ {A : Type 0} where
  -- A weight of one thread is part of the sum.
  weight-total :
      (w : Phase A → ℕ) (ps : List (Phase A)) (i : ℕ) (p : Phase A)
      → get_elem? ps i ≡ some p
      → w p ≤ total w ps
  weight-total w [] i p h = absurd (ground arith)
  weight-total w (q ∷ ps) zero p h = let e : q ≡ p = ground arith in omega (arith, ap w e)
  weight-total w (q ∷ ps) (suc i) p h = omega (arith, weight-total w ps i p h)

  claims_le : (ps : List (Phase A)) → total claims ps ≤ total uses ps
  claims_le [] = omega arith
  claims_le (idle ∷ ps) = omega (arith, claims_le ps)
  claims_le (put x ∷ ps) = omega (arith, claims_le ps)
  claims_le (waits_to_put x ∷ ps) = omega (arith, claims_le ps)
  claims_le (try_put x ∷ ps) = omega (arith, claims_le ps)
  claims_le (putting x ∷ ps) = omega (arith, claims_le ps)
  claims_le (has_put ∷ ps) = omega (arith, claims_le ps)
  claims_le (leaves_put ∷ ps) = omega (arith, claims_le ps)
  claims_le (get ∷ ps) = omega (arith, claims_le ps)
  claims_le (waits_to_get ∷ ps) = omega (arith, claims_le ps)
  claims_le (try_get ∷ ps) = omega (arith, claims_le ps)
  claims_le (getting ∷ ps) = omega (arith, claims_le ps)
  claims_le (has_got ∷ ps) = omega (arith, claims_le ps)
  claims_le (leaves_get ∷ ps) = omega (arith, claims_le ps)
  claims_le (counting ∷ ps) = omega (arith, claims_le ps)

  -- In every run in which no `TryPut` or `TryGet` meets a locked mutex, for any number of threads, at
  -- most one thread has the mutex, and the queue never holds more elements than its capacity.
  pub Run-bounded :
      {capacity n : ℕ} {ins outs : List A} {s : Queue A} {ps : List (Phase A)}
      → Run A capacity n ins outs s ps
      → (total holds ps ≤ 1) × (length s.queue ≤ capacity)
  Run-bounded {s} {ps} run =
      let k = Run-Counts run in
      (omega (arith, k.lock, held_le s.mu), omega (arith, k.slots, k.elements, claims_le ps))

  -- In every such run, a thread that is about to take the first element of the queue finds one.
  pub Run-get_finds :
      {capacity n : ℕ} {ins outs : List A} {s : Queue A} {ps : List (Phase A)}
      → Run A capacity n ins outs s ps
      → (i : ℕ) → get_elem? ps i ≡ some getting
      → s.queue ≢ []
  Run-get_finds {ps} run i g e =
      omega (arith, (Run-Counts run).elements, weight-total claims ps i getting g, ap length e)

  Step-order :
      {s t : Queue A} {p q : Phase A} {e : Event A} (ins outs : List A)
      → Step A s p e t q
      → ins ≡ outs ++ s.queue
      → pushed A e ins ≡ popped A e outs ++ t.queue
  unfolding pushed popped
  Step-order {s} ins outs (put_pushes x) h =
      ap (λ l. l ++ x ∷ []) h ∙ append_assoc outs s.queue (x ∷ [])
  Step-order ins outs (get_pops x xs r) h =
      h ∙ ap (λ l. outs ++ l) r ∙ sym (append_assoc outs (x ∷ []) xs)
  Step-order ins outs (calls_put x) h = h
  Step-order ins outs (put_takes x e r) h = h
  Step-order ins outs (put_locks x r) h = h
  Step-order ins outs (try_put_takes x e r) h = h
  Step-order ins outs (try_put_fails x r) h = h
  Step-order ins outs (try_put_locks x r) h = h
  Step-order ins outs put_unlocks h = h
  Step-order ins outs put_posts h = h
  Step-order ins outs calls_get h = h
  Step-order ins outs (get_takes f r) h = h
  Step-order ins outs (get_locks r) h = h
  Step-order ins outs (try_get_takes f r) h = h
  Step-order ins outs (try_get_fails r) h = h
  Step-order ins outs (try_get_locks r) h = h
  Step-order ins outs get_unlocks h = h
  Step-order ins outs get_posts h = h
  Step-order ins outs (count_locks r) h = h
  Step-order ins outs count_unlocks h = h

  Move-order :
      {s t : Queue A} {ps qs : List (Phase A)} {e : Event A} (ins outs : List A)
      → Move A s ps e t qs
      → ins ≡ outs ++ s.queue
      → pushed A e ins ≡ popped A e outs ++ t.queue
  Move-order ins outs (first st) h = Step-order ins outs st h
  Move-order ins outs (later mv) h = Move-order ins outs mv h

  -- In every such run, what was taken from the queue, followed by what is in it, is what was put into
  -- it, in the same order: nothing is lost, made up or overtaken.
  pub Run-fifo :
      {capacity n : ℕ} {ins outs : List A} {s : Queue A} {ps : List (Phase A)}
      → Run A capacity n ins outs s ps
      → ins ≡ outs ++ s.queue
  unfolding new_queue
  Run-fifo begins = refl
  Run-fifo (goes_on run mv) = Move-order _ _ mv (Run-fifo run)

  -- One thread is at another place.
  abbrev pub replace : List (Phase A) → ℕ → Phase A → List (Phase A)
  replace [] i q = []
  replace (p ∷ ps) zero q = q ∷ ps
  replace (p ∷ ps) (suc i) q = p ∷ replace ps i q

  total-replace :
      (w : Phase A → ℕ) (ps : List (Phase A)) (i : ℕ) (p q : Phase A)
      → get_elem? ps i ≡ some p
      → total w (replace ps i q) + w p ≡ total w ps + w q
  total-replace w [] i p q h = absurd (ground arith)
  total-replace w (r ∷ ps) zero p q h = let e : r ≡ p = ground arith in omega (arith, ap w e)
  total-replace w (r ∷ ps) (suc i) p q h = omega (arith, total-replace w ps i p q h)

  miscounts :
      (ps : List (Phase A)) (i n : ℕ) {s t : Queue A} {p q : Phase A}
      → Contended A s p t q
      → get_elem? ps i ≡ some p
      → Counts n s (total holds ps) (total uses ps) (total claims ps)
      → length t.queue ≢ t.full + total claims (replace ps i q)
  miscounts ps i n (try_put_gives_up x l) h k e =
      omega (arith, k.elements, total-replace claims ps i (try_put x) idle h)
  miscounts ps i n (try_get_gives_up l) h k e =
      omega (arith, k.elements, total-replace claims ps i try_get idle h)

  -- After any such run, if a `TryPut` or a `TryGet` meets a locked mutex, the elements of the queue are
  -- no longer as many as `full_` and the threads under way count.
  pub Contended-miscounts :
      {capacity n : ℕ} {ins outs : List A} {s t : Queue A} {ps : List (Phase A)} {p q : Phase A}
      → Run A capacity n ins outs s ps
      → (i : ℕ) → get_elem? ps i ≡ some p
      → Contended A s p t q
      → length t.queue ≢ t.full + total claims (replace ps i q)
  Contended-miscounts {capacity} {ps} run i h st = miscounts ps i capacity st h (Run-Counts run)
