-- ===== src/VersionService/Asked.antt =====
-- socket_version_service.cc: a client that asks for the version gets it.
use google_gtags.Prelude.{
  ℕ, Bool, true, false, not, ◌&&◌, List, [], ◌∷◌, ◌++◌, Text, map, length, length-append, leb, none,
  ◌≡◌, refl, sym, ap, ◌∙◌, arith, append_assoc, append-nil, if_true, if_false, subst,
}
use google_gtags.Prelude.Int.{ℤ, pos, negsuc, is_int32}
use google_gtags.Prelude.Result.{ok}
use google_gtags.Strutil.{fast_itoa}
use google_gtags.Strutil.Decimal.{fast_itoa_reads_back, fast_itoa_chars}
use google_gtags.Sexp.Items.{opens_item, opens_int_shown, skip_opens, IsToken-fast_itoa}
use google_gtags.WatchMap.{last_char}
use google_gtags.PollServer.{PollServer, is_registered}
use google_gtags.PollServer.Slots.{find}
use google_gtags.Socket.{
  Received, would_block, Written, Connected, delete_this, handle_read, read_done, clear_input,
}
use google_gtags.Socket.Rpc.{readable, writable, serve_event, serve_events}
use google_gtags.Socket.Closing.{IsIdle, close_idle}
use google_gtags.Socket.Delivery.{
  is_answered, left_after, handle_write_delivers, IsRead, read_loop-IsRead,
}
use google_gtags.VersionService.{
  Version, ends_line, receive_version_command, version_sent, version_methods, get_version, atoi,
  int_or_zero, done_get_version,
}

-- The calls of `write`, event for event, take so many bytes in the end, and not before the last event.
unfoldable pub takes_all : List (List Written) → ℕ → Bool
takes_all [] n = false
takes_all (ws ∷ []) n = is_answered ws n && leb (left_after ws n) 0
takes_all (ws ∷ vs ∷ wss) n =
    let rest = takes_all (vs ∷ wss) (left_after ws n) in
    is_answered ws n && not (leb (left_after ws n) 0) && rest

-- The calls of `HandleRead` read the command in pieces, and none is left in front of the last.
pub data IsAsked : Text → List (List Received) → Type 0 where
  last :
      {rs : List Received} (c : ℕ) (t : Text)
      → IsRead rs (c ∷ t) would_block
      → IsAsked (c ∷ t) (rs ∷ [])
  earlier :
      {rs : List Received} {rss : List (List Received)} (t : Text) {rest : Text}
      → IsRead rs t would_block
      → IsAsked rest rss
      → IsAsked (t ++ rest) (rs ∷ rss)

-- A `VersionSocket` that has read so much of a command, and has so much to send.
abbrev pub version_socket : ℕ → ℕ → PollServer → ℤ → Text → Text → Text → Connected Version
version_socket addr fd ps version inbuf outbuf sent = record {
  pollable = record { addr = addr; fd = pos fd };
  ps = ps;
  inbuf = inbuf;
  outbuf = outbuf;
  own = version;
  live = true;
  sent = sent;
}

-- It is gone, and has sent this.
pub record IsSent (fd : ℕ) (sent : Text) (t : Connected Version) : Type 0 where
  pub sends : t.sent ≡ sent
  pub deleted : t.live ≡ false
  pub leaves : find (pos fd) t.ps.slots ≡ none

nothing_left : (rest : Text) → leb (length rest) 0 ≡ true → rest ≡ []
nothing_left [] h = refl
nothing_left (c ∷ rest) h = absurd (ground arith)

something_there :
    (rest : Text) (n : ℕ) → length rest ≡ n → leb n 0 ≡ false → leb (length rest) 0 ≡ false
something_there rest n e h = ground arith

asks_more :
    {rest : Text} {rss : List (List Received)} → IsAsked rest rss → leb (length rest) 0 ≡ false
asks_more (last c t r) = ground arith
asks_more (earlier t {rest = rest} r q) = ground (arith, asks_more q, length-append t rest)

-- What has come of the command in front of its last character does not end a line.
is_partial :
    (inbuf rest : Text)
    → leb (length rest) 0 ≡ false
    → inbuf ++ rest ≡ get_version
    → ends_line (last_char inbuf) ≡ false
unfolding ends_line last_char
is_partial [] rest h e = refl
is_partial (c ∷ []) rest h e = ground arith
is_partial (c ∷ d ∷ []) [] h e = absurd (ground arith)
is_partial (c ∷ d ∷ []) (x ∷ rest) h e = ground arith
is_partial (c ∷ d ∷ b ∷ inbuf) rest h e = ground arith

is_printed : (i : ℤ) → leb (length (fast_itoa i)) 0 ≡ false
is_printed i = ground (arith, (fast_itoa_chars i).1)

atoi-fast_itoa : (i : ℤ) → is_int32 i ≡ true → atoi (fast_itoa i) ≡ i
unfolding atoi int_or_zero
atoi-fast_itoa i h =
    let starts =
      subst (λ t. opens_item t ≡ true) (append-nil (fast_itoa i)) (opens_int_shown i []) in
    rw ((IsToken-fast_itoa i).c_string)
      (rw (skip_opens (fast_itoa i) starts) (rw ((fast_itoa_reads_back i h).2) refl))

module _ (addr fd : ℕ) (ps : PollServer) (version : ℤ)
    (idle : IsIdle (record { addr = addr; fd = pos fd }) ps)
    (registered : is_registered (record { addr = addr; fd = pos fd }) ps ≡ true) where
  gone :
      (sent : Text)
      → (t : Connected Version) × (version_sent (version_socket addr fd ps version [] [] sent)
          ≡ ok t)
        × IsSent fd sent t
  unfolding version_sent delete_this
  gone sent =
      let (closed, deleted, c, d, table, f) = close_idle addr fd ps idle in
      (
        record {
          pollable = record { addr = addr; fd = negsuc 0 };
          ps = deleted;
          inbuf = [];
          outbuf = [];
          own = version;
          live = false;
          sent = sent;
        },
        rw c (rw d refl),
        record { sends = refl; deleted = refl; leaves = f ∙ rw registered refl },
      )

  writes-IsSent :
      (wss : List (List Written)) (outbuf sent : Text)
      → leb (length outbuf) 0 ≡ false
      → takes_all wss (length outbuf) ≡ true
      → (t : Connected Version) × (serve_events version_methods
            (map writable wss)
            (version_socket addr fd ps version [] outbuf sent)
          ≡ ok t)
        × IsSent fd (sent ++ outbuf) t
  unfolding takes_all serve_events serve_event
  writes-IsSent [] outbuf sent some_bytes h = absurd (ground arith)
  writes-IsSent (ws ∷ []) outbuf sent some_bytes h =
      let (taken, rest, whole, left, e) =
        handle_write_delivers version_methods ws (version_socket addr fd ps version [] outbuf sent)
          (ground arith) in
      let none_left = nothing_left rest (ground arith) in
      let all_taken : taken ≡ outbuf =
        sym (append-nil taken) ∙ ap (λ r. taken ++ r) (sym none_left) ∙ whole in
      let (t, d, k) = gone (sent ++ outbuf) in
      let written =
        e
        ∙ if_true {b = leb (length rest) 0 && not (leb (length outbuf) 0)} _ _ (ground arith)
        ∙ (λ i.
            version_sent
              (version_socket addr fd ps version [] (none_left i) (sent ++ all_taken i))) in
      (t, rw written (rw d refl), k)
  writes-IsSent (ws ∷ vs ∷ wss) outbuf sent some_bytes h =
      let (taken, rest, whole, left, e) =
        handle_write_delivers version_methods ws (version_socket addr fd ps version [] outbuf sent)
          (ground arith) in
      let some_left = something_there rest (left_after ws (length outbuf)) left (ground arith) in
      let next : takes_all (vs ∷ wss) (length rest) ≡ true = rw left (ground arith) in
      let (t, d, k) = writes-IsSent (vs ∷ wss) rest (sent ++ taken) some_left next in
      let written =
        e ∙ if_false {b = leb (length rest) 0 && not (leb (length outbuf) 0)} _ _ (ground arith) in
      (
        t,
        rw written d,
        subst (λ u. IsSent fd u t) (append_assoc sent taken rest ∙ ap (λ u. sent ++ u) whole) k,
      )

  -- In front of the last piece, the socket waits for the rest of the line.
  reads-IsSent :
      (inbuf rest : Text) (rss : List (List Received)) (wss : List (List Written))
      → IsAsked rest rss
      → inbuf ++ rest ≡ get_version
      → takes_all wss (length (fast_itoa version)) ≡ true
      → (t : Connected Version) × (serve_events version_methods
            (map readable rss ++ map writable wss)
            (version_socket addr fd ps version inbuf [] [])
          ≡ ok t)
        × IsSent fd (fast_itoa version) t
  unfolding serve_events serve_event handle_read read_done receive_version_command ends_line
      clear_input last_char
  reads-IsSent inbuf rest rss wss (last {rs} c u r) e h =
      let (t, d, k) = writes-IsSent wss (fast_itoa version) [] (is_printed version) h in
      (t, rw (read_loop-IsRead inbuf r) (rw e d), k)
  reads-IsSent inbuf rest rss wss (earlier {rs} {rss = rss'} u {rest = v} r q) e h =
      let (t, d, k) = reads-IsSent (inbuf ++ u) v rss' wss q (append_assoc inbuf u v ∙ e) h in
      let waits = is_partial (inbuf ++ u) v (asks_more q) (append_assoc inbuf u v ∙ e) in
      (t, rw (read_loop-IsRead inbuf r) (rw waits d), k)

  -- A client whose socket is registered with a poll server in good order, and that asks for the version, is
  -- sent it, in however many pieces the command comes, over however many calls of `HandleRead`, and in
  -- however many pieces the answer goes, and then the socket is closed and deleted and has left the server;
  -- and from what the client was sent, it reads the version, which fits an int.
  pub version_answered :
      (rss : List (List Received)) (wss : List (List Written))
      → is_int32 version ≡ true
      → IsAsked get_version rss
      → takes_all wss (length (fast_itoa version)) ≡ true
      → (t : Connected Version) × (serve_events version_methods
            (map readable rss ++ map writable wss)
            (version_socket addr fd ps version [] [] [])
          ≡ ok t)
        × IsSent fd (fast_itoa version) t
        × (done_get_version t.sent ≡ (true, version))
  unfolding done_get_version atoi
  version_answered rss wss fits q h =
      let (t, d, k) = reads-IsSent [] get_version rss wss q refl h in
      (t, d, k, rw k.sends (ap (λ v. (true, v)) (atoi-fast_itoa version fits)))
