-- ===== src/EventFilter.antt =====
-- filewatcher.h and filewatcher.cc: the events of inotify, the filters of a handler, and the choice of the
-- handler's function.
use google_gtags.Prelude.{
  ℕ, ◌/◌, ◌%◌, Bool, true, false, not, ◌&&◌, List, [], ◌∷◌, Text, some_of, text_eq, Option, none,
  some, ◌==◌, if◌then◌else◌,
}
use google_gtags.Prelude.Int.{ℤ}
use google_gtags.Strutil.{peek}

-- `struct inotify_event`. `name` is the C string that stands behind the fields; the event has no name
-- where `len` is 0, and what stands there then is not its own.
pub record InotifyEvent : Type 0 where
  pub wd : ℤ
  pub mask : ℕ
  pub len : ℕ
  pub name : Text

-- `event->mask & IN_X`: each of these has one bit.
unfoldable pub has_flag : ℕ → ℕ → Bool
has_flag mask flag = mask / flag % 2 == 1

abbrev pub in_isdir : ℕ
in_isdir = 0x40000000

-- The classes below `InotifyEventFilter`; a `FileExtensionEventFilter` has its white list.
pub data Filter : Type 0 where
  directories : Filter
  extensions : List Text → Filter
  prefixes : Filter

-- `rindex(filename, '.')`: from the last '.' on.
unfoldable pub extension_of : Text → Option Text
extension_of [] = none
extension_of (c ∷ cs) = elim (extension_of cs) [
  | some ext ↦ some ext
  | none ↦ if c == b'.' then some (c ∷ cs) else none
]

is_listed : Option Text → List Text → Bool
is_listed none white_listed = false
is_listed (some ext) white_listed = some_of (text_eq ext) white_listed

-- `DoFilterOnFilename`
unfoldable pub do_filter_on_filename : Filter → Text → Bool
unfolding is_listed
do_filter_on_filename directories filename = true
do_filter_on_filename (extensions white_listed) filename =
    is_listed (extension_of filename) white_listed
do_filter_on_filename prefixes filename =
    not (peek filename == b'.') && not (peek filename == b'~') && not (peek filename == b'#')

-- `DoFilter`
unfoldable pub do_filter : Filter → InotifyEvent → Bool
do_filter directories event = has_flag event.mask in_isdir
do_filter (extensions white_listed) event =
    if event.len == 0 then false else do_filter_on_filename (extensions white_listed) event.name
do_filter prefixes event = do_filter_on_filename prefixes event.name

-- The calls that `HandleEvent` chooses from, in its order.
pub data Kind : Type 0 where
  access modify attrib close_write close_no_write opened moved_from moved_to create delete : Kind
  unhandled : Kind

-- The conditions of `HandleEvent` behind the filters.
unfoldable pub kind_of : ℕ → Kind
unfolding has_flag
kind_of mask =
    if has_flag mask 0x1
    then access
    else if has_flag mask 0x2
    then modify
    else if has_flag mask 0x4
    then attrib
    else if has_flag mask 0x8
    then close_write
    else if has_flag mask 0x10
    then close_no_write
    else if has_flag mask 0x20
    then opened
    else if has_flag mask 0x40
    then moved_from
    else if has_flag mask 0x80
    then moved_to
    else if has_flag mask 0x100
    then create
    else if has_flag mask 0x200
    then delete
    else unhandled
