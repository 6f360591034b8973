-- ===== src/RequestHandler/Roots.antt =====
-- tagsrequesthandler.cc: what `StripCorpusRoot` strips.
use google_gtags.Prelude.{
  ℕ, ◌≤◌, true, [], ◌∷◌, ◌++◌, Text, text_eq, text_eq_iff, length, drop, some, ◌≡◌, ◌≢◌, refl, ap,
  arith, Bool-cases, inl, inr,
}
use google_gtags.Strutil.{has_prefix_string}
use google_gtags.RequestHandler.{behind_first, or_path, root_pattern, strip_corpus_root}

prefix_split : (s p : Text) → has_prefix_string s p ≡ true → s ≡ p ++ drop (length p) s
unfolding has_prefix_string
prefix_split s [] h = refl
prefix_split [] (d ∷ p) h = cc
prefix_split (c ∷ s) (d ∷ p) h = ground (arith, prefix_split s p)

has_prefix_string-append : (p rest : Text) → has_prefix_string (p ++ rest) p ≡ true
unfolding has_prefix_string
has_prefix_string-append [] rest = refl
has_prefix_string-append (d ∷ p) rest = ground (arith, has_prefix_string-append p rest)

drop-append : (p rest : Text) → drop (length p) (p ++ rest) ≡ rest
drop-append [] rest = refl
drop-append (d ∷ p) rest = drop-append p rest

-- Where the pattern stands, it is found there or in front of that.
behind_first-append :
    (d : ℕ) (p pre rest : Text)
    → (pre' : Text) × (rest' : Text) × (behind_first (d ∷ p) (pre ++ ((d ∷ p) ++ rest))
        ≡ some rest')
      × (pre ++ ((d ∷ p) ++ rest) ≡ pre' ++ ((d ∷ p) ++ rest'))
      × (length pre' ≤ length pre)
unfolding behind_first
behind_first-append d p [] rest = (
  [],
  rest,
  rw (has_prefix_string-append (d ∷ p) rest) (ap some (drop-append (d ∷ p) rest)),
  refl,
  omega arith,
)
behind_first-append d p (c ∷ pre) rest =
    let path = c ∷ (pre ++ ((d ∷ p) ++ rest)) in
    elim (Bool-cases (has_prefix_string path (d ∷ p))) [
      | inl e ↦
          ([], drop (length (d ∷ p)) path, rw e refl, prefix_split path (d ∷ p) e, omega arith)
      | inr e ↦
          let (pre', rest', found, split, le) = behind_first-append d p pre rest in
          (c ∷ pre', rest', rw e found, ap (◌∷◌ c) split, omega (arith, le))
    ]

-- Of a path with the corpus root between two '/', for a root that is not empty, `StripCorpusRoot` leaves what
-- stands behind the first place where it is so.
pub strip_corpus_root_first :
    (corpus_root pre rest : Text)
    → corpus_root ≢ []
    → (pre' : Text) × (rest' : Text) × (strip_corpus_root corpus_root
          (pre ++ (root_pattern corpus_root ++ rest))
        ≡ rest')
      × (pre ++ (root_pattern corpus_root ++ rest) ≡ pre' ++ (root_pattern corpus_root ++ rest'))
      × (length pre' ≤ length pre)
unfolding strip_corpus_root
strip_corpus_root_first corpus_root pre rest n = elim (Bool-cases (text_eq corpus_root [])) [
  | inl e ↦ absurd (n ((text_eq_iff corpus_root []).0 e))
  | inr e ↦
      let (pre', rest', found, split, le) =
        behind_first-append b'/' (corpus_root ++ b'/' ∷ []) pre rest in
      (pre', rest', rw (e, found, or_path) refl, split, le)
]
