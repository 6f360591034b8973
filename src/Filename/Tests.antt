-- ===== src/Filename/Tests.antt =====
-- filename_test.cc: runs on concrete inputs, and the theorems at inputs that meet their premises.
use google_gtags.Prelude.{◌≡◌, ◌+◌, ◌≤◌, ◌↔◌, refl, true, [], ◌∷◌, some, codes, text_eq}
use google_gtags.Prelude.Result.{ok}
use google_gtags.Filename.{
  Filename, initialize, split, push_dir, str, join_rest, basename, last_nonempty, distance_to,
  common_subdirs, lt_filename, lt_dirs, strcmp,
}
use google_gtags.Filename.Distance.{directory, distance_to_metric}
use google_gtags.Filename.Str.{initialize-str}

abbrev table_cc : Filename
table_cc = record { dirs = codes "tools" ∷ codes "tags" ∷ codes "table.cc" ∷ [] }

abbrev util_h : Filename
util_h = record { dirs = codes "tools" ∷ codes "util" ∷ codes "io" ∷ codes "util.h" ∷ [] }

abbrev main_c : Filename
main_c = record { dirs = codes "main.c" ∷ [] }

initialize_runs : initialize (codes "./tools/./tags/table.cc") ≡ ok table_cc
unfolding initialize split push_dir text_eq
initialize_runs = refl

str_runs :
    (str table_cc ≡ codes "tools/tags/table.cc") × (basename table_cc ≡ some (codes "table.cc"))
unfolding str join_rest basename last_nonempty
str_runs = (refl, refl)

distance_runs : distance_to table_cc util_h ≡ 3
unfolding distance_to common_subdirs text_eq
distance_runs = refl

distance_to_metric_example :
    (distance_to table_cc util_h ≡ distance_to util_h table_cc)
    × (distance_to table_cc main_c ≤ distance_to table_cc util_h + distance_to util_h main_c)
    × ((distance_to table_cc util_h ≡ 0) ↔ (directory table_cc.dirs ≡ directory util_h.dirs))
distance_to_metric_example = distance_to_metric table_cc util_h main_c (λ e. cc) (λ e. cc) (λ e. cc)

order_runs : (lt_filename main_c table_cc ≡ true) × (lt_filename table_cc util_h ≡ true)
unfolding lt_filename lt_dirs strcmp
order_runs = (refl, refl)

initialize-str_example : initialize (str table_cc) ≡ ok table_cc
initialize-str_example = initialize-str (codes "./tools/./tags/table.cc") initialize_runs
