-- ===== src/FileWatcher/Events.antt =====
-- filewatcher.cc: the events of one `read`, in their order, and the buffer of `DoIndexing`.
use google_gtags.Prelude.{
  ℕ, zero, suc, ◌+◌, ◌^◌, ◌≤◌, ◌<◌, true, false, List, [], ◌∷◌, Text, length, some, ◌≡◌, ◌≢◌, refl,
  arith, ltb, leb, if◌then◌else◌, Bool-cases, inl, inr, ap, ◌∙◌, if_true, if_false,
}
use google_gtags.Prelude.Int.{ℤ}
use google_gtags.Prelude.Result.{Result, ok, fatal, undefined, ◌>>=◌, bind_cong}
use google_gtags.WatchMap.{join_path, get_pathname, max_path_length}
use google_gtags.WatchMap.Joined.{join_path_bounds}
use google_gtags.EventFilter.{InotifyEvent}
use google_gtags.FileWatcher.{Watcher, put_on}
use google_gtags.FileWatcher.Walk.{child, join_path-child}
use google_gtags.FileWatcher.Dispatch.{
  copied, index_base, do_indexing, handle_all, next_offset, event_loop, bytes, process_events,
}

-- These events lie in the buffer one behind the other, from an offset to its end.
abbrev pub IsLaid : (ℕ → InotifyEvent) → ℕ → List InotifyEvent → ℕ → Type 0
IsLaid at offset [] len = offset ≡ len
IsLaid at offset (e ∷ es) len = (at offset ≡ e) × IsLaid at (offset + 16 + e.len) es len

-- Each event to all handlers, in the order of the events.
pub handle_events : (Text → ℤ) → List InotifyEvent → Watcher → Result Watcher
handle_events watch [] w = ok w
handle_events watch (e ∷ es) w = handle_all watch w.handlers e w >>= handle_events watch es

IsLaid-le :
    (at : ℕ → InotifyEvent) (offset : ℕ) (es : List InotifyEvent) (len : ℕ)
    → IsLaid at offset es len
    → offset ≤ len
IsLaid-le at offset [] len h = omega arith
IsLaid-le at offset (e ∷ es) len h = omega (arith, IsLaid-le at (offset + 16 + e.len) es len h.1)

event_loop-handle_events :
    (watch : Text → ℤ) (n : ℕ) (at : ℕ → InotifyEvent) (len offset : ℕ) (es : List InotifyEvent)
    (w : Watcher)
    → IsLaid at offset es len
    → len < 2 ^ 31
    → len < offset + n
    → event_loop watch n at len offset w ≡ handle_events watch es w
unfolding event_loop handle_events next_offset
event_loop-handle_events watch zero at len offset es w h small fuel =
    absurd (omega (arith, IsLaid-le at offset es len h))
event_loop-handle_events watch (suc n) at len offset [] w h small fuel = ground arith
event_loop-handle_events watch (suc n) at len offset (e ∷ es) w h small fuel =
    let within = IsLaid-le at (offset + 16 + e.len) es len h.1 in
    let next : next_offset offset e.len ≡ offset + 16 + e.len = omega arith in
    if_false {b = leb (2 ^ 31) offset} undefined _ (ground arith)
    ∙ if_true {b = ltb offset len} _ (ok w) (ground arith)
    ∙ rw h.0 (
        bind_cong (handle_all watch w.handlers e w) _ _ (λ v. rw next (
          event_loop-handle_events watch n at len (offset + 16 + e.len) es v h.1 small
            (omega arith))))

-- The events that lie in the buffer one behind the other are given to all handlers, each once and in
-- their order, until one of them ends the process, and the loop of `ProcessEvents` ends.
pub process_events_in_order :
    (watch : Text → ℤ) (len : ℕ) (at : ℕ → InotifyEvent) (es : List InotifyEvent) (w : Watcher)
    → IsLaid at 0 es len
    → len < 2 ^ 31
    → process_events watch (bytes len at) w ≡ handle_events watch es w
unfolding process_events
process_events_in_order watch len at es w h small =
    event_loop-handle_events watch (suc len) at len 0 es w h small (omega arith)

join_path-long :
    (base name : Text)
    → ltb (length base + 1 + length name) max_path_length ≡ false
    → join_path base name ≡ fatal
unfolding join_path
join_path-long base name h = rw h

index_base_fits :
    (event : InotifyEvent) (queue : ℕ) (w : Watcher) (base : Text)
    → base ≢ []
    → length event.name < event.len
    → index_base (some base) event queue w ≡ (
        if ltb (length base + 1 + length event.name) max_path_length
        then ok (put_on queue (child base event.name) w)
        else fatal)
unfolding index_base copied
index_base_fits event queue w base n fits =
    elim (Bool-cases (ltb (length base + 1 + length event.name) max_path_length)) [
      | inl e ↦
          let path = join_path-child base event.name n e in
          let (fits_limit, bounds) =
            join_path_bounds base event.name (child base event.name) path in
          let room : ltb (length (child base event.name)) (length base + event.len + 2) ≡ true =
            ground (arith, bounds) in
          rw (e, path) (rw room refl)
      | inr e ↦ rw (e, join_path-long base event.name e) refl
    ]

-- The name of the event lies in its `len` bytes with its terminator, and its directory is known, by a
-- path that is not empty: then the full path is put on the queue, and fits the buffer made for it, or a
-- path too long for `JoinPath` ends the process.
pub do_indexing_fits :
    (event : InotifyEvent) (queue : ℕ) (w : Watcher) (base : Text)
    → get_pathname event.wd w.map ≡ some base
    → base ≢ []
    → length event.name < event.len
    → do_indexing event queue w ≡ (
        if ltb (length base + 1 + length event.name) max_path_length
        then ok (put_on queue (child base event.name) w)
        else fatal)
unfolding do_indexing copied
do_indexing_fits event queue w base known n fits =
    ap (λ o. index_base o event queue w) known ∙ index_base_fits event queue w base n fits
