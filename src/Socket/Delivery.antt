-- ===== src/Socket/Delivery.antt =====
-- socket.cc: what `HandleWrite` sends and what it leaves, and what `HandleRead` reads.
use google_gtags.Prelude.{
  ℕ, zero, suc, ◌+◌, ◌-◌, ◌≤◌, Bool, true, false, not, ◌&&◌, List, [], ◌∷◌, ◌++◌, Text, length,
  take, drop, leb, length-append, append_assoc, append-nil, ◌≡◌, refl, sym, ap, ◌∙◌, arith,
  if◌then◌else◌, Bool-cases, inl, inr, if_true, if_and_false,
}
use google_gtags.Prelude.Result.{Result, ok, undefined}
use google_gtags.Socket.{
  ReadEnd, Received, bytes, ended, read_loop, Written, took, write_failed, Writing, write_loop,
  Connected, Methods, write_done, handle_write,
}

-- The calls of `write` suffice for so many bytes: none takes more than it is given, until all are taken
-- or one fails.
unfoldable pub is_answered : List Written → ℕ → Bool
is_answered ws zero = true
is_answered [] (suc n) = false
is_answered (write_failed ∷ ws) (suc n) = true
is_answered (took k ∷ ws) (suc n) = leb k n && is_answered ws (n - k)

-- How many of so many bytes they leave.
unfoldable pub left_after : List Written → ℕ → ℕ
left_after ws zero = 0
left_after [] (suc n) = suc n
left_after (write_failed ∷ ws) (suc n) = suc n
left_after (took k ∷ ws) (suc n) = left_after ws (n - k)

take-drop : (n : ℕ) (s : Text) → take n s ++ drop n s ≡ s
take-drop zero s = refl
take-drop (suc n) [] = refl
take-drop (suc n) (c ∷ s) = ap (◌∷◌ c) (take-drop n s)

length-drop : (n : ℕ) (s : Text) → length (drop n s) ≡ length s - n
length-drop zero s = omega arith
length-drop (suc n) [] = omega arith
length-drop (suc n) (c ∷ s) = omega (arith, length-drop n s)

drop-drop : (k m n : ℕ) (s : Text) → k ≡ n + m → drop m (drop n s) ≡ drop k s
drop-drop k m zero s h = ap (λ i. drop i s) (omega arith)
drop-drop zero m (suc n) s h = absurd (omega arith)
drop-drop (suc k) zero (suc n) [] h = refl
drop-drop (suc k) (suc m) (suc n) [] h = refl
drop-drop (suc k) m (suc n) (c ∷ s) h = drop-drop k m n s (omega arith)

length-take : (n : ℕ) (s : Text) → n ≤ length s → length (take n s) ≡ n
length-take zero s h = refl
length-take (suc n) [] h = absurd (omega arith)
length-take (suc n) (c ∷ s) h = omega (arith, length-take n s (omega arith))

writing_eq :
    (rest : Text) {m n : ℕ} {s t : Text}
    → m ≡ n
    → s ≡ t
    → Path
        (Result Writing)
        (ok (record { outbuf = rest; totalwrote = m; sent = s }))
        (ok (record { outbuf = rest; totalwrote = n; sent = t }))
writing_eq rest e d = rw (e, d) refl

-- The end of the loop: the bytes it took, as many as it counted, and those that are left.
pub record IsDelivered (ws : List Written) (outbuf : Text) (totalwrote : ℕ) (sent : Text)
    : Type 0 where
  pub taken : Text
  pub rest : Text
  pub whole : taken ++ rest ≡ outbuf
  pub erases : drop (length taken) outbuf ≡ rest
  pub left : length rest ≡ left_after ws (length outbuf)
  pub loop :
      write_loop ws outbuf totalwrote sent
      ≡ ok (record { outbuf = rest; totalwrote = totalwrote + length taken; sent = sent ++ taken })

nothing_taken :
    (ws : List Written) (outbuf : Text) (totalwrote : ℕ) (sent : Text)
    → length outbuf ≡ left_after ws (length outbuf)
    → write_loop ws outbuf totalwrote sent
      ≡ ok (record { outbuf = outbuf; totalwrote = totalwrote; sent = sent })
    → IsDelivered ws outbuf totalwrote sent
nothing_taken ws outbuf totalwrote sent l e = record {
  taken = [];
  rest = outbuf;
  whole = refl;
  erases = refl;
  left = l;
  loop = e ∙ writing_eq outbuf (omega arith) (sym (append-nil sent));
}

pub write_loop-IsDelivered :
    (ws : List Written) (outbuf : Text) (totalwrote : ℕ) (sent : Text)
    → is_answered ws (length outbuf) ≡ true
    → IsDelivered ws outbuf totalwrote sent
unfolding write_loop is_answered left_after
write_loop-IsDelivered ws [] totalwrote sent h = nothing_taken ws [] totalwrote sent refl refl
write_loop-IsDelivered (write_failed ∷ ws) (c ∷ cs) totalwrote sent h =
    nothing_taken (write_failed ∷ ws) (c ∷ cs) totalwrote sent refl refl
write_loop-IsDelivered [] (c ∷ cs) totalwrote sent h = absurd (ground arith)
write_loop-IsDelivered (took n ∷ ws) (c ∷ cs) totalwrote sent h =
    let d =
      write_loop-IsDelivered ws (drop n cs) (totalwrote + suc n) (sent ++ (c ∷ take n cs))
        (rw length-drop (ground arith)) in
    let fits : n ≤ length cs = ground arith in
    record {
      taken = c ∷ (take n cs ++ d.taken);
      rest = d.rest;
      whole = ap (◌∷◌ c) (
          append_assoc (take n cs) d.taken d.rest
          ∙ ap (λ s. take n cs ++ s) d.whole
          ∙ take-drop n cs);
      erases =
          sym (
            drop-drop (length (take n cs ++ d.taken)) (length d.taken) n cs
              (omega (arith, length-append (take n cs) d.taken, length-take n cs fits)))
          ∙ d.erases;
      left = d.left ∙ ap (left_after ws) (length-drop n cs);
      loop =
          if_true {b = leb n (length cs)} _ undefined (ground arith)
          ∙ d.loop
          ∙ writing_eq d.rest
              (omega (arith, length-append (take n cs) d.taken, length-take n cs fits))
              (append_assoc sent (c ∷ take n cs) d.taken);
    }

same_test : {A : Type 0} (b : Bool) (x y : A) → (if b then x else y) ≡ (if b && true then x else y)
same_test true x y = refl
same_test false x y = refl

empty_parts :
    (outbuf taken rest : Text)
    → leb (length outbuf) 0 ≡ true
    → taken ++ rest ≡ outbuf
    → (taken ≡ []) × (rest ≡ outbuf)
empty_parts (c ∷ outbuf) taken rest h e = absurd (ground arith)
empty_parts [] [] rest h e = (refl, e)
empty_parts [] (c ∷ taken) rest h e = absurd (ground (arith, ap length e))

-- The writes of one call of `HandleWrite` send a piece from the front of `outbuf_` and leave the rest there,
-- however much each of them takes, and `HandleSent` is called where nothing is left of what was there.
pub handle_write_delivers :
    {A : Type 0} (m : Methods A) (ws : List Written) (s : Connected A)
    → is_answered ws (length s.outbuf) ≡ true
    → (taken rest : Text) × (taken ++ rest ≡ s.outbuf)
      × (length rest ≡ left_after ws (length s.outbuf))
      × (handle_write m ws s ≡ (
          if leb (length rest) 0 && not (leb (length s.outbuf) 0)
          then m.handle_sent (record s { outbuf = rest; sent = s.sent ++ taken })
          else ok (record s { outbuf = rest; sent = s.sent ++ taken })))
unfolding handle_write write_done
handle_write_delivers m ws s h =
    let d = write_loop-IsDelivered ws s.outbuf 0 s.sent h in
    let loop = d.loop ∙ writing_eq d.rest {n = length d.taken} (omega arith) refl in
    (
      d.taken,
      d.rest,
      d.whole,
      d.left,
      elim (Bool-cases (leb (length s.outbuf) 0)) [
        | inl e ↦
            let (none_taken, all_left) = empty_parts s.outbuf d.taken d.rest e d.whole in
            let same_sent : s.sent ++ d.taken ≡ s.sent =
              ap (λ t. s.sent ++ t) none_taken ∙ append-nil s.sent in
            rw e (
              (λ i. ok (record s { outbuf = sym all_left i; sent = sym same_sent i }))
              ∙ sym (if_and_false (leb (length d.rest) 0) _ _))
        | inr e ↦ rw e (rw loop (rw d.erases (same_test (leb (length d.rest) 0) _ _)))
      ],
    )

-- What the calls of `recv` give to one call of `HandleRead`, and how they end.
pub data IsRead : List Received → Text → ReadEnd → Type 0 where
  stops : {rs : List Received} (e : ReadEnd) → IsRead (ended e ∷ rs) [] e
  more :
      {rs : List Received} {t : Text} {e : ReadEnd} (c : ℕ) (s : Text)
      → IsRead rs t e
      → IsRead (bytes c s ∷ rs) ((c ∷ s) ++ t) e

pub read_loop-IsRead :
    {rs : List Received} {t : Text} {e : ReadEnd} (inbuf : Text)
    → IsRead rs t e
    → read_loop rs inbuf ≡ ok (e, inbuf ++ t)
unfolding read_loop
read_loop-IsRead inbuf (stops e) = ap (λ t. ok (e, t)) (sym (append-nil inbuf))
read_loop-IsRead inbuf (more {rs} {t} {e} c s r) =
    read_loop-IsRead (inbuf ++ (c ∷ s)) r ∙ ap (λ u. ok (e, u)) (append_assoc inbuf (c ∷ s) t)
