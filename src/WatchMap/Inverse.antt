-- ===== src/WatchMap/Inverse.antt =====
-- filewatcher.cc: the two directions of the map stay in step.
use google_gtags.Prelude.{List, Text, none, some, ◌≡◌, inl, inr, arith, Option-cases}
use google_gtags.Prelude.Dict.{Key, put, find, erase, find-put, find-erase, text_key, int_key}
use google_gtags.Prelude.Int.{ℤ}
use google_gtags.WatchMap.{WatchMap, add, remove, forget, get_pathname}

-- What `m` says of a key, `n` says the other way round.
abbrev pub Points {ℓ} :
    {K V : Type ℓ} ⦃k : Key K⦄ ⦃v : Key V⦄ → List (K × V) → List (V × K) → Type ℓ
Points {K} {V} m n = (k : K) (v : V) → find k m ≡ some v → find v n ≡ some k

module _ {ℓ} {K V : Type ℓ} ⦃key : Key K⦄ ⦃value : Key V⦄ where
  -- The new value stood for no key.
  put-Points :
      (k : K) (v : V) (m : List (K × V)) (n : List (V × K))
      → Points m n
      → find v n ≡ none
      → Points (put k v m) (put v k n)
  put-Points k v m n points fresh q w h = ground (
    arith,
    points q w,
    find-put q k v m,
    find-put w v k n,
    key.same_key_iff k q,
    value.same_key_iff v w,
  )

  erase-Points :
      (k : K) (v : V) (m : List (K × V)) (n : List (V × K))
      → Points m n
      → find v n ≡ some k
      → Points (erase k m) (erase v n)
  erase-Points k v m n points known q w h = ground (
    arith,
    points q w,
    find-erase q k m,
    find-erase w v n,
    key.same_key_iff k q,
    value.same_key_iff v w,
  )

-- Every watch descriptor with a path is found by that path.
abbrev pub IsSound : WatchMap → Type 0
IsSound m = Points m.wd_to_pathname m.pathname_to_wd

-- The two directions say the same.
pub record IsInverse (m : WatchMap) : Type 0 where
  pub forward : Points m.pathname_to_wd m.wd_to_pathname
  pub backward : Points m.wd_to_pathname m.pathname_to_wd

pub add-IsSound :
    (pathname : Text) (wd : ℤ) (m : WatchMap)
    → IsSound m
    → find pathname m.pathname_to_wd ≡ none
    → IsSound (add pathname wd m)
unfolding add
add-IsSound pathname wd m s fresh = put-Points wd pathname m.wd_to_pathname m.pathname_to_wd s fresh

pub add-IsInverse :
    (pathname : Text) (wd : ℤ) (m : WatchMap)
    → IsInverse m
    → find pathname m.pathname_to_wd ≡ none
    → find wd m.wd_to_pathname ≡ none
    → IsInverse (add pathname wd m)
unfolding add
add-IsInverse pathname wd m s new_path new_wd = record {
  forward = put-Points pathname wd m.pathname_to_wd m.wd_to_pathname s.forward new_wd;
  backward = put-Points wd pathname m.wd_to_pathname m.pathname_to_wd s.backward new_path;
}

pub remove-IsSound : (wd : ℤ) (m : WatchMap) → IsSound m → IsSound (remove wd m)
unfolding remove forget get_pathname
remove-IsSound wd m s = elim (Option-cases (find wd m.wd_to_pathname)) [
  | inl e ↦ rw (e, forget) s
  | inr (p, e) ↦ rw (e, forget) (erase-Points wd p m.wd_to_pathname m.pathname_to_wd s (s wd p e))
]

pub remove-IsInverse : (wd : ℤ) (m : WatchMap) → IsInverse m → IsInverse (remove wd m)
unfolding remove forget get_pathname
remove-IsInverse wd m s = elim (Option-cases (find wd m.wd_to_pathname)) [
  | inl e ↦ rw (e, forget) s
  | inr (p, e) ↦
      rw (e, forget)
        (record {
          forward = erase-Points p wd m.pathname_to_wd m.wd_to_pathname s.forward e;
          backward =
              erase-Points wd p m.wd_to_pathname m.pathname_to_wd s.backward (s.backward wd p e);
        })
]
