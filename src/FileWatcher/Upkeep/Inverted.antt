-- ===== src/FileWatcher/Upkeep/Inverted.antt =====
-- filewatcher.cc: the map stays its own inverse, where each descriptor that inotify gives is new.
use google_gtags.Prelude.{
  true, false, Text, none, some, ◌≡◌, sym, arith, Option-cases, inl, inr, ap, ◌∙◌,
}
use google_gtags.Prelude.Dict.{find, find-put, find-erase, text_key, int_key}
use google_gtags.Prelude.Int.{ℤ, =ℤ_iff}
use google_gtags.Prelude.Result.{Holds, Holds-mono}
use google_gtags.WatchMap.{WatchMap, add, remove, forget, get_pathname, get_watch_descriptor}
use google_gtags.WatchMap.Inverse.{IsInverse, add-IsInverse, remove-IsInverse}
use google_gtags.FileWatcher.{Watcher, is_positive}
use google_gtags.FileWatcher.Upkeep.Tracked.{
  IsTracked, add-IsTracked, remove-IsTracked, not_watched, Call, perform, perform-keeps,
}

-- No path is given the descriptor of another path.
abbrev pub IsApart : (Text → ℤ) → WatchMap → Type 0
IsApart watch m = (p q : Text) → find (watch p) m.wd_to_pathname ≡ some q → q ≡ p

record IsReady (watch : Text → ℤ) (m : WatchMap) : Type 0 where
  tracked : IsTracked m
  inverse : IsInverse m
  apart : IsApart watch m

unused :
    (watch : Text → ℤ) (p : Text) (m : WatchMap)
    → IsReady watch m
    → find p m.pathname_to_wd ≡ none
    → find (watch p) m.wd_to_pathname ≡ none
unused watch p m r h = elim (Option-cases (find (watch p) m.wd_to_pathname)) [
  | inl e ↦ e
  | inr (q, e) ↦
      let back : find q m.pathname_to_wd ≡ some (watch p) = r.inverse.backward (watch p) q e in
      cc (sym h ∙ ap (λ t. find t m.pathname_to_wd) (sym (r.apart p q e)) ∙ back)
]

add-IsReady :
    (watch : Text → ℤ) (p : Text) (m : WatchMap)
    → is_positive (watch p) ≡ true
    → ((q : Text) → watch p ≡ watch q → p ≡ q)
    → IsReady watch m
    → is_positive (get_watch_descriptor p m) ≡ false
    → IsReady watch (add p (watch p) m)
unfolding add
add-IsReady watch p m positive one_path r h =
    let fresh = not_watched p m r.tracked h in
    record {
      tracked = add-IsTracked p (watch p) m positive r.tracked h;
      inverse = add-IsInverse p (watch p) m r.inverse fresh (unused watch p m r fresh);
      apart = λ q t e. ground (
        arith,
        find-put (watch q) (watch p) p m.wd_to_pathname,
        =ℤ_iff (watch p) (watch q),
        one_path q,
        r.apart q t,
      );
    }

remove-IsReady :
    (watch : Text → ℤ) (wd : ℤ) (m : WatchMap) → IsReady watch m → IsReady watch (remove wd m)
unfolding remove forget get_pathname
remove-IsReady watch wd m r = record {
  tracked = remove-IsTracked wd m r.tracked;
  inverse = remove-IsInverse wd m r.inverse;
  apart = elim (Option-cases (find wd m.wd_to_pathname)) [
    | inl e ↦ rw (e, forget) r.apart
    | inr (p, e) ↦
        rw (e, forget)
          (λ q t h. ground (arith, find-erase (watch q) wd m.wd_to_pathname, r.apart q t))
  ];
}

-- Where `inotify_add_watch` gives each path a positive descriptor of its own, which no other path in the
-- map has, the two directions of the map say the same behind any call and any event, if it ends well, where
-- in front of it they say the same, every descriptor of the map is positive, every one with a path is found
-- by that path, and no path stands twice.
pub perform-IsInverse :
    (watch : Text → ℤ) (c : Call) (w : Watcher)
    → ((p : Text) → is_positive (watch p) ≡ true)
    → ((p q : Text) → watch p ≡ watch q → p ≡ q)
    → IsApart watch w.map
    → IsTracked w.map
    → IsInverse w.map
    → Holds (λ v. IsInverse v.map) (perform watch c w)
perform-IsInverse watch c w positive one_path apart tracked inverse =
    Holds-mono (λ v. IsReady watch v.map) (λ v. IsInverse v.map) (λ v r. r.inverse)
      (perform watch c w)
      (perform-keeps watch (IsReady watch)
        (λ p m r h. add-IsReady watch p m (positive p) (one_path p) r h) (remove-IsReady watch) c w
        (record { tracked = tracked; inverse = inverse; apart = apart }))
