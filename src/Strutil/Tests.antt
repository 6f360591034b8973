-- ===== src/Strutil/Tests.antt =====
-- strutil.cc: runs on concrete inputs.
use google_gtags.Prelude.{◌≡◌, ◌≤◌, refl, true, false, some, codes, length}
use google_gtags.Prelude.Int.{pos, negsuc}
use google_gtags.Strutil.{fast_itoa, is_int_token, scan_int, c_escape}
use google_gtags.Strutil.Decimal.{fast_itoa_reads_back}

itoa_runs :
    (fast_itoa (pos 0) ≡ codes "0") × (fast_itoa (negsuc 2_147_483_647) ≡ codes "-2147483648")
unfolding fast_itoa
itoa_runs = (refl, refl)

int_token_runs :
    (is_int_token (codes "-2147483648") ≡ true)
    × (is_int_token (codes "+5") ≡ false)
    × (is_int_token (codes "12345678901") ≡ false)
    × (is_int_token (codes "-") ≡ false)
unfolding is_int_token
int_token_runs = (refl, refl, refl, refl)

escape_runs : c_escape (codes "a\n\"b\"\\") ≡ codes "a\\n\\\"b\\\"\\\\"
unfolding c_escape
escape_runs = refl

fast_itoa_reads_back_example :
    (is_int_token (fast_itoa (negsuc 41)) ≡ true)
    × (length (fast_itoa (negsuc 41)) ≤ 11)
    × (scan_int (fast_itoa (negsuc 41)) ≡ some (negsuc 41))
fast_itoa_reads_back_example = fast_itoa_reads_back (negsuc 41) refl
