-- ===== src/VersionService/Tests.antt =====
-- socket_version_service_test.cc: the theorem at an input that meets its premises.
use google_gtags.Prelude.{true, List, [], ◌∷◌, ◌++◌, length, map, ◌≡◌, refl}
use google_gtags.Prelude.Int.{pos}
use google_gtags.Prelude.Result.{ok}
use google_gtags.Strutil.{fast_itoa}
use google_gtags.Socket.{
  Received, bytes, ended, would_block, Written, took, write_failed, Connected,
}
use google_gtags.Socket.Rpc.{readable, writable, serve_events}
use google_gtags.Socket.Sample.{serving, serving-IsIdle, is_registered-serving}
use google_gtags.Socket.Delivery.{is_answered, left_after, stops, more}
use google_gtags.VersionService.{Version, version_methods, done_get_version}
use google_gtags.VersionService.Asked.{
  last, earlier, takes_all, version_socket, IsSent, version_answered,
}

-- The letter in one event, the end of the line in the next.
abbrev command_bytes : List (List Received)
command_bytes =
    (bytes b'v' [] ∷ ended would_block ∷ []) ∷ (bytes b'\n' [] ∷ ended would_block ∷ []) ∷ []

-- The first two digits in one event, the third in the next.
abbrev writes : List (List Written)
writes = (took 1 ∷ write_failed ∷ []) ∷ (took 0 ∷ []) ∷ []

writes_take_all : takes_all writes (length (fast_itoa (pos 123))) ≡ true
unfolding takes_all is_answered left_after fast_itoa
writes_take_all = refl

version_answered_example :
    (t : Connected Version) × (serve_events version_methods
        (map readable command_bytes ++ map writable writes)
        (version_socket 100 5 serving (pos 123) [] [] [])
      ≡ ok t)
    × IsSent 5 (fast_itoa (pos 123)) t
    × (done_get_version t.sent ≡ (true, pos 123))
version_answered_example =
    version_answered 100 5 serving (pos 123) (serving-IsIdle 100) is_registered-serving
      command_bytes writes refl
      (earlier (b'v' ∷ []) (more b'v' [] (stops would_block))
        (last b'\n' [] (more b'\n' [] (stops would_block))))
      writes_take_all
