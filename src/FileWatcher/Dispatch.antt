-- ===== src/FileWatcher/Dispatch.antt =====
-- filewatcher.h and filewatcher.cc: the handlers of the events, and the loop over what `read` returned.
use google_gtags.Prelude.{
  ℕ, zero, suc, ◌+◌, ◌%◌, ◌^◌, List, [], ◌∷◌, Text, length, every, Option, none, some, ltb, leb,
  if◌then◌else◌,
}
use google_gtags.Prelude.Int.{ℤ}
use google_gtags.Prelude.Result.{Result, ok, fatal, undefined, out_of_fuel, ◌>>=◌}
use google_gtags.WatchMap.{join_path, get_pathname, get_watch_descriptor}
use google_gtags.EventFilter.{InotifyEvent, Kind, modify, create, delete, kind_of, do_filter}
use google_gtags.FileWatcher.{
  Watcher, Handler, tracker, indexer, logger, is_positive, put_on, remove_directory,
}
use google_gtags.FileWatcher.Directories.{add_directory}

-- What `HandleCreate` and `HandleDelete` of the tracker begin with: a CHECK, and the full path.
unfoldable pub full_path : Option Text → Text → Result Text
full_path none name = fatal
full_path (some base_path) name = join_path base_path name

-- `JoinPath` into the buffer that `DoIndexing` makes, of this size.
unfoldable pub copied : ℕ → Text → Result Text
copied size path = if ltb (length path) size then ok path else undefined

-- `IndexEventHandler::DoIndexing`
unfoldable pub index_base : Option Text → InotifyEvent → ℕ → Watcher → Result Watcher
index_base none event queue w = ok w
index_base (some base_path) event queue w = do
  path ← join_path base_path event.name
  path ← copied (length base_path + event.len + 2) path
  ok (put_on queue path w)

unfoldable pub do_indexing : InotifyEvent → ℕ → Watcher → Result Watcher
unfolding index_base
do_indexing event queue w = index_base (get_pathname event.wd w.map) event queue w

-- `DirectoryTracker::HandleDelete`
unfoldable pub handle_delete : InotifyEvent → Watcher → Result Watcher
handle_delete event w = do
  path ← full_path (get_pathname event.wd w.map) event.name
  let wd = get_watch_descriptor path w.map
  if is_positive wd then ok (remove_directory wd w) else fatal

-- The functions that `IndexEventHandler` overrides.
unfoldable pub indexer_handle : Kind → InotifyEvent → ℕ → Watcher → Result Watcher
unfolding do_indexing
indexer_handle modify event queue w = do_indexing event queue w
indexer_handle create event queue w = do_indexing event queue w
indexer_handle delete event queue w = do_indexing event queue w
indexer_handle _ event queue w = ok w

-- `offset += kInotifyEventSize + event->len`, a sum of unsigned 32-bit numbers.
unfoldable pub next_offset : ℕ → ℕ → ℕ
next_offset offset len = (offset + 16 + len) % 2 ^ 32

-- What `ReadEvents` returns: an error, EINTR or another, or a number of bytes and the buffer.
pub data ReadEvents : Type 0 where
  interrupted failed : ReadEvents
  bytes : ℕ → (ℕ → InotifyEvent) → ReadEvents

module _ (watch : Text → ℤ) where
  -- `DirectoryTracker::HandleCreate`
  unfoldable pub handle_create : InotifyEvent → Watcher → Result Watcher
  handle_create event w = do
    path ← full_path (get_pathname event.wd w.map) event.name
    r ← add_directory watch path w
    ok r.1

  -- The functions that `DirectoryTracker` overrides.
  unfoldable pub tracker_handle : Kind → InotifyEvent → Watcher → Result Watcher
  unfolding handle_create handle_delete
  tracker_handle create event w = handle_create event w
  tracker_handle delete event w = handle_delete event w
  tracker_handle _ event w = ok w

  -- `HandleEvent`. A logger changes nothing.
  unfoldable pub handle_event : Handler → InotifyEvent → Watcher → Result Watcher
  unfolding tracker_handle indexer_handle
  handle_event (tracker filters) event w =
      if every (λ f. do_filter f event) filters
      then tracker_handle (kind_of event.mask) event w
      else ok w
  handle_event (indexer filters queue) event w =
      if every (λ f. do_filter f event) filters
      then indexer_handle (kind_of event.mask) event queue w
      else ok w
  handle_event (logger filters) event w = ok w

  -- The loop over `event_handlers_`.
  unfoldable pub handle_all : List Handler → InotifyEvent → Watcher → Result Watcher
  unfolding handle_event
  handle_all [] event w = ok w
  handle_all (h ∷ hs) event w = do v ← handle_event h event w; handle_all hs event v

  -- The loop of `ProcessEvents` over the first `len` bytes of the buffer, of which `at` is the event that
  -- the cast finds at an offset. An offset from 2 ^ 31 on is a negative `int`.
  unfoldable pub event_loop : ℕ → (ℕ → InotifyEvent) → ℕ → ℕ → Watcher → Result Watcher
  unfolding handle_all next_offset
  event_loop zero at len offset w = out_of_fuel
  event_loop (suc n) at len offset w =
      let more =
        handle_all w.handlers (at offset) w
        >>= event_loop n at len (next_offset offset (at offset).len) in
      if leb (2 ^ 31) offset then undefined else if ltb offset len then more else ok w

  -- `ProcessEvents`; the loop has a turn for each byte, which is more than enough.
  unfoldable pub process_events : ReadEvents → Watcher → Result Watcher
  unfolding event_loop
  process_events interrupted w = ok w
  process_events failed w = fatal
  process_events (bytes len at) w = event_loop (suc len) at len 0 w

  -- `Loop`, as long as these reads last.
  unfoldable pub run_loop : List ReadEvents → Watcher → Result Watcher
  unfolding process_events
  run_loop [] w = ok w
  run_loop (r ∷ rs) w = do v ← process_events r w; run_loop rs v
