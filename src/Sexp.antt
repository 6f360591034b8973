-- ===== src/Sexp.antt =====
-- sexpression.h: the values, and the constructors' normalisation of names.
pub mod Printer
pub mod Parser
pub mod Iterator
mod Tests
mod Escapes
pub mod Tokens
pub mod Items
pub mod Readback
mod Weight
pub mod Reads
pub mod Ends
pub mod Termination
pub mod Flaws
pub mod RoundTrip
use google_gtags.Prelude.{
  ℕ, Bool, true, false, not, ◌&&◌, ◌||◌, [], ◌∷◌, ◌++◌, Text, codes, get_or, every, ◌==◌,
  if◌then◌else◌,
}
use google_gtags.Prelude.Int.{ℤ}
use google_gtags.Strutil.{ascii_isspace, peek, c_str, is_int_token}

-- `SExpression` and its five concrete classes.
pub data SExpression : Type 0 where
  nil : SExpression
  pair : SExpression → SExpression → SExpression
  symbol : Text → SExpression
  str : Text → SExpression
  int : ℤ → SExpression

unfoldable pub is_pair : SExpression → Bool
is_pair (pair a d) = true
is_pair _ = false

unfoldable pub is_nil : SExpression → Bool
is_nil nil = true
is_nil _ = false

-- `nil`, or a pair whose cdr is a list.
unfoldable pub is_list : SExpression → Bool
is_list nil = true
is_list (pair a d) = is_list d
is_list _ = false

unfoldable pub is_atom : SExpression → Bool
unfolding is_pair
is_atom v = not (is_pair v)

unfoldable pub is_symbol : SExpression → Bool
is_symbol nil = true
is_symbol (symbol n) = true
is_symbol _ = false

unfoldable pub is_string : SExpression → Bool
is_string (str s) = true
is_string _ = false

unfoldable pub is_integer : SExpression → Bool
is_integer (int i) = true
is_integer _ = false

-- `TokenIsInteger`: no leading white space, and an integer up to the terminator.
unfoldable pub token_is_integer : Text → Bool
token_is_integer s = if ascii_isspace (peek s) then false else is_int_token s

-- `TokenIsAllPeriods`, true of the empty token too.
unfoldable pub token_is_all_periods : Text → Bool
token_is_all_periods = every (λ c. c == b'.')

-- `kAsciiSymbol`; the positions from 128 on hold NUL.
abbrev ascii_symbol : Text
ascii_symbol =
    codes "................................"
    ++ codes ".x..xxx...xx.xxxxxxxxxxxxx..xxxx"
    ++ codes "xxxxxxxxxxxxxxxxxxxxxxxxxxxx.xxx"
    ++ codes ".xxxxxxxxxxxxxxxxxxxxxxxxxxx.xx."

unfoldable pub is_symbol_char : ℕ → Bool
is_symbol_char c = get_or ascii_symbol c 0 == b'x'

-- `needs_quoting_`, which the constructor of `SExpressionSymbol` computes from the name.
unfoldable pub needs_quoting : Text → Bool
needs_quoting name =
    if token_is_integer name || token_is_all_periods name
    then true
    else not (every is_symbol_char name)

-- `new SExpressionSymbol(name_str)` keeps the name up to its first NUL.
unfoldable pub new_symbol : Text → SExpression
new_symbol name_str = symbol (c_str name_str)
