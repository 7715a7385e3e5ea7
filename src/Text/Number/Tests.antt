-- ===== src/Text/Number/Tests.antt =====
-- Texts that `int` takes, and texts that it does not.
use civic_archive_api.Prelude.{◌≡◌, refl, none, some}
use civic_archive_api.Prelude.Int.{pos, negsuc}
use civic_archive_api.Text.{strip}
use civic_archive_api.Text.Number.{parse_int, signed, natural}

number : Unit {0}
unfolding parse_int signed natural strip
number = tt

spaced : parse_int " 1_024 " ≡ some (pos 1024)
unfolding number
spaced = refl

below_zero : parse_int "-7" ≡ some (negsuc 6)
unfolding number
below_zero = refl

devanagari_three : parse_int "३" ≡ some (pos 3)
unfolding number
devanagari_three = refl

two_underscores : parse_int "1__0" ≡ none
unfolding number
two_underscores = refl

no_digits : parse_int "+" ≡ none
unfolding number
no_digits = refl
