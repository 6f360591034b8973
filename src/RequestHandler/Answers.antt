-- ===== src/RequestHandler/Answers.antt =====
-- tagsrequesthandler.cc: what a client that reads the answer of the s-expression protocol gets.
use google_gtags.Prelude.{
  ◌/◌, ◌%◌, ◌^◌, ◌<◌, Bool, true, ◌&&◌, List, [], ◌∷◌, ◌++◌, map, append_assoc, Text, codes,
  text_eq, every, keep, every-keep, ◌≡◌, ◌∙◌, refl, sym, subst, arith, Bool-cases, inl, inr,
}
use google_gtags.Prelude.Int.{pos, is_int32}
use google_gtags.Strutil.{is_int_token, ascii_isspace, fast_itoa}
use google_gtags.Strutil.Escape.{is_nonzero}
use google_gtags.Sexp.{
  SExpression, symbol, str, int, needs_quoting, token_is_integer, token_is_all_periods,
  is_symbol_char,
}
use google_gtags.Sexp.Printer.{shown, shown_tail}
use google_gtags.Sexp.Items.{is_printable_name}
use google_gtags.Sexp.Readback.{IsPrintable, reread}
use google_gtags.Sexp.Reads.{
  Reads, ReadsItems, list_of, Reads-shown, ReadsItems-close, ReadsItems-space, ReadsItems-item,
  Reads-list,
}
use google_gtags.Filename
use google_gtags.TagsTable.{TagsResult}
use google_gtags.RequestHandler.Protocol.{SexpHandler, print_match, print_matches, print_head}

-- (name value)
abbrev pub field : Text → SExpression → SExpression
field name value = list_of (symbol name ∷ value ∷ [])

-- What `PrintTagsResults` prints of a match.
pub match_sexp : TagsResult → SExpression
match_sexp r = list_of (
    field (codes "tag") (str r.tag)
    ∷ field (codes "snippet") (str r.linerep)
    ∷ field (codes "filename") (str (Filename.str r.filename))
    ∷ field (codes "lineno") (int r.lineno)
    ∷ field (codes "offset") (int r.charno)
    ∷ field (codes "directory-distance") (int (pos 0))
    ∷ [])

-- Its texts hold no NUL, and its numbers fit an int.
unfoldable pub is_printable_match : TagsResult → Bool
is_printable_match r =
    every is_nonzero r.tag
    && every is_nonzero r.linerep
    && every is_nonzero (Filename.str r.filename)
    && is_int32 r.lineno
    && is_int32 r.charno

match_sexp-IsPrintable : (r : TagsResult) → is_printable_match r ≡ true → IsPrintable (match_sexp r)
unfolding match_sexp is_printable_match is_printable_name needs_quoting token_is_integer
    is_int_token ascii_isspace token_is_all_periods is_symbol_char
match_sexp-IsPrintable r h = (
  (refl, (ground arith, tt)),
  (
    (refl, (ground arith, tt)),
    (
      (refl, (ground arith, tt)),
      ((refl, (ground arith, tt)), ((refl, (ground arith, tt)), ((refl, (refl, tt)), tt))),
    ),
  ),
)

print_match-shown : (r : TagsResult) → print_match r ≡ shown (match_sexp r) ++ codes " "
unfolding print_match match_sexp shown shown_tail needs_quoting token_is_integer is_int_token
    ascii_isspace token_is_all_periods is_symbol_char fast_itoa
print_match-shown r = simp append_assoc

-- What `PrintTagsResults` prints behind the first parenthesis.
body : List TagsResult → Text
body [] = b')' ∷ []
body (r ∷ rs) = shown (match_sexp r) ++ b' ' ∷ body rs

print_matches-body :
    (test : TagsResult → Bool) (rs : List TagsResult) (output : Text)
    → print_matches test rs output ≡ output ++ body (keep test rs)
unfolding print_matches keep body
print_matches-body test [] output = refl
print_matches-body test (r ∷ rs) output = elim (Bool-cases (test r)) [
  | inl e ↦ rw e (
      print_matches-body test rs (output ++ print_match r)
      ∙ rw (print_match-shown r) (simp append_assoc))
  | inr e ↦ rw e (print_matches-body test rs output)
]

-- What a client reads of a match.
pub reread_match : TagsResult → SExpression
reread_match r = reread (match_sexp r)

ReadsItems-body :
    (rs : List TagsResult)
    → every is_printable_match rs ≡ true
    → ReadsItems (body rs) (map reread_match rs)
unfolding body ascii_isspace reread_match
ReadsItems-body [] h = ReadsItems-close
ReadsItems-body (r ∷ rs) h =
    ReadsItems-item (Reads-shown (match_sexp r) (match_sexp-IsPrintable r (ground arith)))
      (λ rest. refl) (ReadsItems-space (ReadsItems-body rs (ground arith)))

pub Reads-matches :
    (test : TagsResult → Bool) (rs : List TagsResult)
    → every is_printable_match rs ≡ true
    → Reads (print_matches test rs (codes "(")) (list_of (map reread_match (keep test rs)))
Reads-matches test rs h =
    subst (λ t. Reads t (list_of (map reread_match (keep test rs))))
      (sym (print_matches-body test rs (codes "(")))
      (Reads-list (ReadsItems-body (keep test rs) kept))
  where
    kept : every is_printable_match (keep test rs) ≡ true
    kept = every-keep {p = is_printable_match} {q = test} {r = is_printable_match} (λ x p q. p) rs h

-- The start time of the server and the number of the request.
pub started : SexpHandler → SExpression
started h = field (codes "server-start-time") (
    list_of
      (int (pos (h.server_start_time / 2 ^ 16)) ∷ int (pos (h.server_start_time % 2 ^ 16)) ∷ []))

pub numbered : SexpHandler → SExpression
numbered h = field (codes "sequence-number") (int (pos h.sequence_number))

-- The answer that carries a value.
pub response : SexpHandler → SExpression → SExpression
response h v = list_of (started h ∷ numbered h ∷ field (codes "value") v ∷ [])

unfoldable pub frame : SexpHandler → Text → Text
frame h value = print_head h ++ value ++ codes "))"

framed :
    (h : SexpHandler) (value : Text)
    → frame h value
      ≡ b'('
        ∷ (shown (started h)
            ++ (b' '
                ∷ (shown (numbered h)
                    ++ (b' '
                        ∷ ((b'(' ∷ (codes "value" ++ (b' ' ∷ (value ++ b')' ∷ []))))
                            ++ b')' ∷ [])))))
unfolding frame print_head started numbered shown shown_tail needs_quoting token_is_integer
    is_int_token ascii_isspace token_is_all_periods is_symbol_char
framed h value = simp append_assoc

-- The two numbers of the start time and the number of the request fit an int.
abbrev pub IsInRange : SexpHandler → Type 0
IsInRange h = (h.server_start_time < 2 ^ 47) × (h.sequence_number < 2 ^ 31)

Reads-started : (h : SexpHandler) → IsInRange h → Reads (shown (started h)) (started h)
unfolding started reread is_printable_name needs_quoting token_is_integer is_int_token ascii_isspace
    token_is_all_periods is_symbol_char text_eq
Reads-started h p = Reads-shown (started h) (refl, (((ground arith, (ground arith, tt)), tt)))

Reads-numbered : (h : SexpHandler) → IsInRange h → Reads (shown (numbered h)) (numbered h)
unfolding numbered reread is_printable_name needs_quoting token_is_integer is_int_token
    ascii_isspace token_is_all_periods is_symbol_char text_eq
Reads-numbered h p = Reads-shown (numbered h) (refl, (ground arith, tt))

Reads-value : Reads (codes "value") (symbol (codes "value"))
unfolding shown reread is_printable_name needs_quoting token_is_integer is_int_token ascii_isspace
    token_is_all_periods is_symbol_char text_eq
Reads-value = Reads-shown (symbol (codes "value")) refl

pub Reads-frame :
    (h : SexpHandler) (value : Text) (v : SExpression)
    → IsInRange h
    → Reads value v
    → Reads (frame h value) (response h v)
unfolding response ascii_isspace
Reads-frame h value v p r =
    subst (λ t. Reads t (response h v)) (sym (framed h value))
      (Reads-list (
        ReadsItems-item (Reads-started h p) (λ rest. refl)
          (ReadsItems-space (
            ReadsItems-item (Reads-numbered h p) (λ rest. refl)
              (ReadsItems-space (
                ReadsItems-item
                  (Reads-list (
                    ReadsItems-item Reads-value (λ rest. refl)
                      (ReadsItems-space (ReadsItems-item r (λ rest. refl) ReadsItems-close))))
                  (λ rest. refl) ReadsItems-close))))))
