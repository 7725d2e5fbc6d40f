-- ===== src/Decimal/Samples.antt =====
-- Decimals at concrete inputs.
use Prim.Native.String.{String}
use mathlib.Core.Bool.{true}
use mathlib.Core.Path.{◌≡◌, refl}
use gezerah.Base.Text.{codes}
use gezerah.Decimal.Parse.{Decimal, parsed, failed, invalid_exponent, zero_decimal, parse_decimal}
use gezerah.Decimal.Ops.{add, multiply, negate, aligns_to}

abbrev dec : String → Decimal
dec s = record { canonical = codes s }

parse_trims : parse_decimal (codes "+0012.3400") ≡ parsed (dec "12.34")
unfolding parse_decimal
parse_trims = refl

parse_exponent : parse_decimal (codes "-1.5E-3") ≡ parsed (dec "-0.0015")
unfolding parse_decimal
parse_exponent = refl

parse_large : parse_decimal (codes "1.25e4") ≡ parsed (dec "12500")
unfolding parse_decimal
parse_large = refl

parse_far : parse_decimal (codes "1e10001") ≡ failed (invalid_exponent (codes "1e10001"))
unfolding parse_decimal
parse_far = refl

parse_zero : parse_decimal (codes "-0.00") ≡ parsed zero_decimal
unfolding parse_decimal
parse_zero = refl

add_exact : add (dec "0.1") (dec "-2.25") ≡ parsed (dec "-2.15")
unfolding add
add_exact = refl

multiply_exact : multiply (dec "-0.5") (dec "0.04") ≡ parsed (dec "-0.02")
unfolding multiply
multiply_exact = refl

negate_zero : negate zero_decimal ≡ parsed zero_decimal
unfolding negate
negate_zero = refl

aligned : aligns_to (dec "2.5") (dec "0.75") (dec "1") ≡ true
unfolding aligns_to
aligned = refl
