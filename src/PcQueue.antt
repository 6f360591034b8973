-- ===== src/PcQueue.antt =====
-- pcqueue.h with semaphore.h and mutex.h: `ProducerConsumerQueue`, as the steps of threads that share it.
pub mod Invariant
pub mod Safety
mod Tests
use google_gtags.Prelude.{ℕ, zero, suc, ◌+◌, ◌<◌, Bool, true, false, List, [], ◌∷◌, ◌++◌, ◌≡◌}

module _ (A : Type 0) where
  -- `queue_`, whether `mu_` is locked, and the values of the semaphores `full_` and `empty_`.
  pub record Queue : Type 0 where
    pub queue : List A
    pub mu : Bool
    pub full : ℕ
    pub empty : ℕ

  -- Where a thread stands between the statements of an operation.
  pub data Phase : Type 0 where
    -- Outside, or behind its return.
    idle : Phase
    -- `Put`: in front of `empty_.Lock()`, and behind it in front of the `MutexLock`.
    put waits_to_put : A → Phase
    -- `TryPut`, behind `empty_.TryLock()`.
    try_put : A → Phase
    -- In front of `PutInQueue(elem)`, with the mutex.
    putting : A → Phase
    -- Behind it, and behind the release of the mutex in front of `full_.Unlock()`.
    has_put leaves_put : Phase
    -- `Get`: in front of `full_.Lock()`, and behind it in front of the `MutexLock`.
    get waits_to_get : Phase
    -- `TryGet`, behind `full_.TryLock()`.
    try_get : Phase
    -- In front of `GetFromQueue(&elem)`, with the mutex.
    getting : Phase
    -- Behind it, and behind the release of the mutex in front of `empty_.Unlock()`.
    has_got leaves_get : Phase
    -- `count`, with the mutex.
    counting : Phase

  -- What a step does to the queue, for the order of the elements.
  pub data Event : Type 0 where
    silent : Event
    pushes pops : A → Event

  -- The constructor `ProducerConsumerQueue(capacity)`.
  pub new_queue : ℕ → Queue
  new_queue capacity = record { queue = []; mu = false; full = 0; empty = capacity }

  -- One thread goes on by one statement. A semaphore or a mutex that is not free blocks `Lock`, so
  -- there is no such step, and `TryLock` fails. Where it is the mutex for which `TryPut` or `TryGet`
  -- fails to wait, the step is in `Contended`.
  pub data Step (s : Queue) : Phase → Event → Queue → Phase → Type 0 where
    calls_put : (x : A) → Step s idle silent s (put x)
    put_takes :
        (x : A) (e : ℕ)
        → s.empty ≡ suc e
        → Step s (put x) silent (record s { empty = e }) (waits_to_put x)
    put_locks :
        (x : A) → s.mu ≡ false → Step s (waits_to_put x) silent (record s { mu = true }) (putting x)
    try_put_takes :
        (x : A) (e : ℕ) → s.empty ≡ suc e → Step s idle silent (record s { empty = e }) (try_put x)
    try_put_fails : (x : A) → s.empty ≡ 0 → Step s idle silent s idle
    try_put_locks :
        (x : A) → s.mu ≡ false → Step s (try_put x) silent (record s { mu = true }) (putting x)
    put_pushes :
        (x : A) → Step s (putting x) (pushes x) (record s { queue = s.queue ++ x ∷ [] }) has_put
    put_unlocks : Step s has_put silent (record s { mu = false }) leaves_put
    put_posts : Step s leaves_put silent (record s { full = suc s.full }) idle
    calls_get : Step s idle silent s get
    get_takes : (f : ℕ) → s.full ≡ suc f → Step s get silent (record s { full = f }) waits_to_get
    get_locks : s.mu ≡ false → Step s waits_to_get silent (record s { mu = true }) getting
    try_get_takes : (f : ℕ) → s.full ≡ suc f → Step s idle silent (record s { full = f }) try_get
    try_get_fails : s.full ≡ 0 → Step s idle silent s idle
    try_get_locks : s.mu ≡ false → Step s try_get silent (record s { mu = true }) getting
    get_pops :
        (x : A) (xs : List A)
        → s.queue ≡ x ∷ xs
        → Step s getting (pops x) (record s { queue = xs }) has_got
    get_unlocks : Step s has_got silent (record s { mu = false }) leaves_get
    get_posts : Step s leaves_get silent (record s { empty = suc s.empty }) idle
    count_locks : s.mu ≡ false → Step s idle silent (record s { mu = true }) counting
    count_unlocks : Step s counting silent (record s { mu = false }) idle

  -- `mu_.TryLock()` fails, and the operation posts the other semaphore all the same.
  pub data Contended (s : Queue) : Phase → Queue → Phase → Type 0 where
    try_put_gives_up :
        (x : A) → s.mu ≡ true → Contended s (try_put x) (record s { full = suc s.full }) idle
    try_get_gives_up : s.mu ≡ true → Contended s try_get (record s { empty = suc s.empty }) idle

  -- One of the threads steps.
  pub data Move (s : Queue) : List Phase → Event → Queue → List Phase → Type 0 where
    first :
        {p q : Phase} {e : Event} {t : Queue} {ps : List Phase}
        → Step s p e t q
        → Move s (p ∷ ps) e t (q ∷ ps)
    later :
        {p : Phase} {e : Event} {t : Queue} {ps qs : List Phase}
        → Move s ps e t qs
        → Move s (p ∷ ps) e t (p ∷ qs)

  -- `none` of the threads is inside at the start.
  pub all_idle : ℕ → List Phase
  all_idle zero = []
  all_idle (suc n) = idle ∷ all_idle n

  pub pushed : Event → List A → List A
  pushed (pushes x) xs = xs ++ x ∷ []
  pushed _ xs = xs

  pub popped : Event → List A → List A
  popped (pops x) xs = xs ++ x ∷ []
  popped _ xs = xs

  -- A run of `n` threads on a queue, with what was put into it and what was taken from it so far, in
  -- this order.
  pub data Run (capacity n : ℕ) : List A → List A → Queue → List Phase → Type 0 where
    begins : Run capacity n [] [] (new_queue capacity) (all_idle n)
    goes_on :
        {ins outs : List A} {s t : Queue} {ps qs : List Phase} {e : Event}
        → Run capacity n ins outs s ps
        → Move s ps e t qs
        → Run capacity n (pushed e ins) (popped e outs) t qs
