-- ===== src/Scan/Tests.antt =====
-- The directives on short texts.
use btl_hdh.Base.{◌≡◌, refl, some, [], ◌∷◌}
use btl_hdh.Base.Int.{pos, negsuc}
use btl_hdh.Base.Exit.{returns, faults}
use btl_hdh.Scan.{
  codes, skip_space, found, scan_digits, scan_sign, starts_digit, scan_magnitude, scan_unsigned,
  scan_int, signed, scan_all, scan_word, take_word, drop_word, fgets, take_line, drop_line,
}

unsigned : scan_unsigned 256 (codes "  +42 x") ≡ returns (found 42 (codes " x"))
unfolding scan_unsigned scan_magnitude skip_space scan_sign starts_digit scan_digits
unsigned = refl

minus : scan_unsigned 256 (codes "-1") ≡ returns (found 255 [])
unfolding scan_unsigned scan_magnitude skip_space scan_sign starts_digit scan_digits
minus = refl

too_large : scan_unsigned 256 (codes "256") ≡ faults
unfolding scan_unsigned scan_magnitude skip_space scan_sign starts_digit scan_digits
too_large = refl

negative : scan_int (codes "-7,") ≡ returns (found (negsuc 6) (codes ","))
unfolding scan_int signed scan_magnitude skip_space scan_sign starts_digit scan_digits
negative = refl

-- The third directive finds no number.
partial : scan_all scan_int 3 (codes "1 2 p0s 3") ≡ returns (pos 1 ∷ pos 2 ∷ [], codes "p0s 3")
unfolding scan_all scan_int signed scan_magnitude skip_space scan_sign starts_digit scan_digits
partial = refl

word : scan_word (codes " p0s 3") ≡ some (codes "p0s", codes " 3")
unfolding scan_word skip_space take_word drop_word
word = refl

-- At most three bytes are read.
line : fgets 4 (codes "abcd") ≡ some (codes "abc", codes "d")
unfolding fgets take_line drop_line
line = refl
