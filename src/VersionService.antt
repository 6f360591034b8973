-- ===== src/VersionService.antt =====
-- socket_version_service.cc: the socket that answers with the version of a server, and its client.
pub mod Asked
mod Tests
use google_gtags.Prelude.{
  ℕ, Bool, true, false, not, List, [], ◌∷◌, ◌++◌, Text, codes, Option, none, some, ◌==◌,
  if◌then◌else◌,
}
use google_gtags.Prelude.Int.{ℤ, pos}
use google_gtags.Prelude.Result.{Result, ok, fatal, ◌>>=◌}
use google_gtags.Strutil.{fast_itoa, peek, scan_int, c_str}
use google_gtags.Sexp.Parser.{skip_whitespace}
use google_gtags.WatchMap.{last_char}
use google_gtags.Socket.{Connected, Methods, close, delete_this}

-- What a `VersionSocket` keeps besides: its version.
abbrev pub Version : Type 0
Version = ℤ

-- The end of a line.
unfoldable pub ends_line : Option ℕ → Bool
ends_line none = false
ends_line (some c) = c == b'\n'

-- `HandleReceived`. The command to shut down closes the socket, and `exit` ends the process.
unfoldable pub receive_version_command : Connected Version → Result (Bool × Connected Version)
unfolding ends_line
receive_version_command s =
    if not (ends_line (last_char s.inbuf))
    then ok (false, s)
    else if peek s.inbuf == b'v'
    then ok (true, record s { outbuf = s.outbuf ++ fast_itoa s.own })
    else if peek s.inbuf == b'!'
    then (close s.pollable s.ps >>= λ r. fatal)
    else ok (true, s)

-- `HandleSent`
unfoldable pub version_sent : Connected Version → Result (Connected Version)
version_sent s = do r ← close s.pollable s.ps; delete_this (record s { pollable = r.0; ps = r.1 })

abbrev pub version_methods : Methods Version
version_methods = record {
  handle_received = receive_version_command;
  handle_sent = version_sent;
  handle_disconnected = λ s. ok s;
}

-- The command of `GetVersion`.
abbrev pub get_version : Text
get_version = codes "v\n"

unfoldable pub int_or_zero : Option ℤ → ℤ
int_or_zero none = pos 0
int_or_zero (some i) = i

-- `atoi`, of a text whose value fits an int.
unfoldable pub atoi : Text → ℤ
unfolding int_or_zero
atoi s = int_or_zero (scan_int (skip_whitespace (c_str s)))

-- `DoneGetVersion`: `success` and `version`. The pointer to the version is compared, and is never NULL.
unfoldable pub done_get_version : Text → Bool × ℤ
done_get_version response = (true, atoi response)
