-- ===== src/Interpreter/Words.antt =====
-- The 64-bit integer arithmetic of Rust that interpreter/src/storage/value.rs uses. `debug` says
-- whether the build checks overflows (a debug build panics, a release build wraps).
use rtlola.Common.{
  ℕ, ◌+◌, ◌-◌, ◌/◌, ◌%◌, ◌^◌, zero, suc, Bool, ltb, leb, ◌==◌, if◌then◌else◌, Outcome, ok, panic,
}
use rtlola.Common.Int.{ℤ, pos, negsuc, neg, abs, ◌*ℤ◌, eqb_ℤ}

-- The result of an unsigned sum, product or power, whose exact value is `n`.
unfoldable pub unsigned_result : Bool → ℕ → Outcome ℕ
unsigned_result debug n = if ltb n (2 ^ 64) then ok n else if debug then panic else ok (n % 2 ^ 64)

unfoldable pub sub_u64 : Bool → ℕ → ℕ → Outcome ℕ
sub_u64 debug a b = if leb b a then ok (a - b) else if debug then panic else ok (a + 2 ^ 64 - b)

-- Division by zero panics in every build.
unfoldable pub div_u64 : ℕ → ℕ → Outcome ℕ
div_u64 a b = if b == 0 then panic else ok (a / b)

unfoldable pub rem_u64 : ℕ → ℕ → Outcome ℕ
rem_u64 a b = if b == 0 then panic else ok (a % b)

-- The distance that `<<` and `>>` use; a distance of 64 or more is an overflow.
unfoldable pub shift_distance : Bool → ℕ → Outcome ℕ
shift_distance debug b = if ltb b 64 then ok b else if debug then panic else ok (b % 64)

-- The two's complement bit pattern of an integer, and the integer that a pattern stands for.
unfoldable pub to_bits : ℤ → ℕ
to_bits (pos n) = n % 2 ^ 64
to_bits (negsuc n) = 2 ^ 64 - 1 - n % 2 ^ 64

unfoldable pub of_bits : ℕ → ℤ
of_bits n = if ltb n (2 ^ 63) then pos n else negsuc (2 ^ 64 - 1 - n)

abbrev pub in_i64 : ℤ → Bool
in_i64 (pos n) = ltb n (2 ^ 63)
in_i64 (negsuc n) = ltb n (2 ^ 63)

-- The result of a signed operation, whose exact value is `z`.
unfoldable pub signed_result : Bool → ℤ → Outcome ℤ
signed_result debug z = if in_i64 z then ok z else if debug then panic else ok (of_bits (to_bits z))

-- Rust's `/` and `%` on integers round towards zero.
abbrev pub trunc_div : ℤ → ℤ → ℤ
trunc_div (pos a) (pos b) = pos (a / b)
trunc_div (pos a) (negsuc b) = neg (pos (a / suc b))
trunc_div (negsuc a) (pos b) = neg (pos (suc a / b))
trunc_div (negsuc a) (negsuc b) = pos (suc a / suc b)

abbrev pub trunc_rem : ℤ → ℤ → ℤ
trunc_rem (pos a) b = pos (a % abs b)
trunc_rem (negsuc a) b = neg (pos (suc a % abs b))

-- `i64::MIN / -1` and `i64::MIN % -1` panic in every build.
unfoldable pub div_i64 : ℤ → ℤ → Outcome ℤ
div_i64 a b =
    if eqb_ℤ b (pos 0) then panic else if in_i64 (trunc_div a b) then ok (trunc_div a b) else panic

unfoldable pub rem_i64 : ℤ → ℤ → Outcome ℤ
rem_i64 a b =
    if eqb_ℤ b (pos 0) then panic else if in_i64 (trunc_div a b) then ok (trunc_rem a b) else panic

unfoldable pub pow_ℤ : ℤ → ℕ → ℤ
pow_ℤ a zero = pos 1
pow_ℤ a (suc n) = a *ℤ pow_ℤ a n

-- `>>` on a signed integer rounds towards minus infinity.
abbrev pub shr_ℤ : ℤ → ℕ → ℤ
shr_ℤ (pos n) d = pos (n / 2 ^ d)
shr_ℤ (negsuc n) d = negsuc (n / 2 ^ d)

abbrev pub not_ℤ : ℤ → ℤ
not_ℤ (pos n) = negsuc n
not_ℤ (negsuc n) = pos n
