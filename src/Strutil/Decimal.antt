-- ===== src/Strutil/Decimal.antt =====
-- strutil.cc: what `FastItoa` prints is read back by `IsIntToken` and `sscanf`.
use native.Mathlib.Nat.{pow-suc}
use google_gtags.Prelude.{
  ℕ, zero, suc, ◌+◌, ◌-◌, ◌*◌, ◌/◌, ◌%◌, ◌^◌, ◌≤◌, ◌<◌, ◌≡◌, refl, ◌∙◌, Bool, true, ◌||◌,
  every_mono, [], ◌∷◌, ◌++◌, Text, some, length, length-append, every, every-append, arith,
  append_assoc, ◌==◌, if◌then◌else◌, Bool-cases, ==_iff, inl, inr, append-nil, ap,
}
use google_gtags.Prelude.Int.{ℤ, pos, negsuc, is_int32}
use google_gtags.Strutil.{
  is_digit, itoa_loop, fast_itoa, is_int_loop, is_int_token, scan_digits, negate, scan_int,
}

-- The digits of a number, most significant first, at most `f` of them.
pub digits : ℕ → ℕ → Text
digits zero n = []
digits (suc f) n =
    let front = digits f (n / 10) in
    let last = (b'0' + n % 10) ∷ [] in if n / 10 == 0 then last else front ++ last

itoa_loop-digits : (f n : ℕ) (p : Text) → itoa_loop f n p ≡ digits f n ++ p
unfolding itoa_loop digits
itoa_loop-digits zero n p = refl
itoa_loop-digits (suc f) n p = elim (Bool-cases (n / 10 == 0)) [
  | inl e ↦ rw e
  | inr e ↦ rw e (itoa_loop-digits f (n / 10) _ ∙ rw append_assoc)
]

is_digit-last : (n : ℕ) → is_digit (b'0' + n % 10) ≡ true
unfolding is_digit
is_digit-last n = ground arith

every-is_digit-digits : (f n : ℕ) → every is_digit (digits f n) ≡ true
unfolding digits
every-is_digit-digits zero n = refl
every-is_digit-digits (suc f) n = elim (Bool-cases (n / 10 == 0)) [
  | inl e ↦ rw (e, is_digit-last n)
  | inr e ↦ rw e (rw every-append (rw (every-is_digit-digits f (n / 10), is_digit-last n)))
]

length-digits : (f n : ℕ) → length (digits f n) ≤ f
unfolding digits
length-digits zero n = omega arith
length-digits (suc f) n =
    ground
      (arith, length-digits f (n / 10), length-append (digits f (n / 10)) ((b'0' + n % 10) ∷ []))

digits-pos : (f n : ℕ) → 0 < length (digits (suc f) n)
unfolding digits
digits-pos f n = ground (arith, length-append (digits f (n / 10)) ((b'0' + n % 10) ∷ []))

scan_digits-append :
    (ds : Text) (a c : ℕ)
    → every is_digit ds ≡ true
    → is_digit c ≡ true
    → scan_digits a (ds ++ c ∷ []) ≡ scan_digits a ds * 10 + (c - b'0')
unfolding scan_digits
scan_digits-append [] a c h k = rw k
scan_digits-append (d ∷ ds) a c h k = ground (arith, scan_digits-append ds (a * 10 + (d - b'0')) c)

scan_digits_nil : scan_digits 0 [] ≡ 0
unfolding scan_digits
scan_digits_nil = refl

scan_digits-last : (n : ℕ) → scan_digits 0 ((b'0' + n % 10) ∷ []) ≡ n % 10
unfolding scan_digits
scan_digits-last n = ground (arith, is_digit-last n)

scan_digits-digits : (f n : ℕ) → n < 10 ^ f → scan_digits 0 (digits f n) ≡ n
unfolding digits
scan_digits-digits zero n h = scan_digits_nil ∙ omega arith
scan_digits-digits (suc f) n h = elim (Bool-cases (n / 10 == 0)) [
  | inl e ↦ rw e (scan_digits-last n ∙ omega (arith, (==_iff (n / 10) 0).0 e))
  | inr e ↦
      let p : 10 ^ suc f ≡ 10 ^ f * 10 = pow-suc 10 f in
      let ih = scan_digits-digits f (n / 10) (omega arith) in
      rw e (
        scan_digits-append (digits f (n / 10)) 0 _ (every-is_digit-digits f (n / 10))
          (is_digit-last n)
        ∙ omega (arith, ih))
]

is_int_loop-digits :
    (ds : Text) (i : ℕ)
    → every is_digit ds ≡ true
    → i + length ds ≤ 10
    → 0 < i + length ds
    → is_int_loop i ds ≡ true
unfolding is_int_loop is_digit
is_int_loop-digits [] i h k l = ground arith
is_int_loop-digits (d ∷ ds) i h k l = ground (arith, is_int_loop-digits ds (i + 1))

is_int_token-digits :
    (ds : Text) → every is_digit ds ≡ true → 0 < length ds → length ds ≤ 10 → is_int_token ds ≡ true
unfolding is_int_token is_digit
is_int_token-digits [] h k l = absurd (omega arith)
is_int_token-digits (d ∷ ds) h k l = ground (arith, is_int_loop-digits (d ∷ ds) 0)

is_int_token-minus : (ds : Text) → is_int_token (b'-' ∷ ds) ≡ is_int_loop 0 ds
unfolding is_int_token
is_int_token-minus ds = refl

scan_int-digits :
    (ds : Text)
    → every is_digit ds ≡ true
    → 0 < length ds
    → scan_int ds ≡ some (pos (scan_digits 0 ds))
unfolding scan_int is_digit
scan_int-digits [] h k = absurd (omega arith)
scan_int-digits (d ∷ ds) h k = ground arith

scan_int-minus :
    (ds : Text)
    → every is_digit ds ≡ true
    → 0 < length ds
    → scan_int (b'-' ∷ ds) ≡ some (negate (scan_digits 0 ds))
unfolding scan_int
scan_int-minus [] h k = absurd (omega arith)
scan_int-minus (d ∷ ds) h k = ground arith

-- What is printed: the digits of the magnitude, behind a sign if the value is negative.
pub shown_int : ℤ → Text
shown_int (pos n) = digits 10 n
shown_int (negsuc n) = b'-' ∷ digits 10 (suc n)

pub fast_itoa-shown_int : (i : ℤ) → fast_itoa i ≡ shown_int i
unfolding fast_itoa shown_int
fast_itoa-shown_int (pos n) = itoa_loop-digits 10 n [] ∙ append-nil _
fast_itoa-shown_int (negsuc n) = ap (◌∷◌ b'-') (itoa_loop-digits 10 (suc n) [] ∙ append-nil _)

int_token_shown : (i : ℤ) → is_int_token (shown_int i) ≡ true
unfolding shown_int
int_token_shown (pos n) =
    is_int_token-digits _ (every-is_digit-digits 10 n) (digits-pos 9 n) (length-digits 10 n)
int_token_shown (negsuc n) =
    is_int_token-minus _
    ∙ is_int_loop-digits _ 0 (every-is_digit-digits 10 (suc n))
        (omega (arith, length-digits 10 (suc n))) (omega (arith, digits-pos 9 (suc n)))

scan_shown : (i : ℤ) → is_int32 i ≡ true → scan_int (shown_int i) ≡ some i
unfolding shown_int
scan_shown (pos n) h =
    scan_int-digits _ (every-is_digit-digits 10 n) (digits-pos 9 n)
    ∙ ap (λ m. some (pos m)) (scan_digits-digits 10 n (ground arith))
scan_shown (negsuc n) h =
    scan_int-minus _ (every-is_digit-digits 10 (suc n)) (digits-pos 9 (suc n))
    ∙ ap (λ m. some (negate m)) (scan_digits-digits 10 (suc n) (ground arith))

length_shown : (i : ℤ) → length (shown_int i) ≤ 11
unfolding shown_int
length_shown (pos n) = omega (arith, length-digits 10 n)
length_shown (negsuc n) = omega (arith, length-digits 10 (suc n))

abbrev pub is_int_char : ℕ → Bool
is_int_char c = is_digit c || c == b'-'

shown_chars : (i : ℤ) → (every is_int_char (shown_int i) ≡ true) × (0 < length (shown_int i))
unfolding shown_int
shown_chars (pos n) =
    (every_mono (λ c h. ground arith) (digits 10 n) (every-is_digit-digits 10 n), digits-pos 9 n)
shown_chars (negsuc n) =
    let hs : every is_int_char (digits 10 (suc n)) ≡ true =
      every_mono (λ c h. ground arith) (digits 10 (suc n)) (every-is_digit-digits 10 (suc n)) in
    (ground (arith, hs), omega arith)

pub fast_itoa_chars :
    (i : ℤ) → (every is_int_char (fast_itoa i) ≡ true) × (0 < length (fast_itoa i))
fast_itoa_chars i = rw fast_itoa-shown_int (shown_chars i)

-- Every text that `FastItoa` prints passes `IsIntToken`, fits its buffer of 11 characters, and is
-- read back by `sscanf` as the same value, for each value in the range of a 32-bit int.
pub fast_itoa_reads_back :
    (i : ℤ)
    → is_int32 i ≡ true
    → (is_int_token (fast_itoa i) ≡ true)
      × (length (fast_itoa i) ≤ 11)
      × (scan_int (fast_itoa i) ≡ some i)
fast_itoa_reads_back i h =
    rw fast_itoa-shown_int (int_token_shown i, length_shown i, scan_shown i h)
