-- ===== src/Prelude/Word.antt =====
-- Go's uint64 arithmetic, its conversion to int64, and durations against instants.
use Prim.Native.Nat.{ℕ, ◌+◌, ◌-◌, ◌%◌, ◌^◌, ◌<◌}
use mathlib.Core.Path.{◌≡◌}
use native.Mathlib.Omega.{arith}
use mathlib.Core.Bool.{Bool, false, ◌&&◌}
use bytedesk_sdk_dependencie.Prelude.Tests.{ltb, if◌then◌else◌}
use bytedesk_sdk_dependencie.Prelude.Int.{ℤ, pos, negsuc}

abbrev pub word : ℕ
word = 2 ^ 64

abbrev pub half_word : ℕ
half_word = 2 ^ 63

abbrev pub add64 : ℕ → ℕ → ℕ
add64 a b = (a + b) % word

abbrev pub sub64 : ℕ → ℕ → ℕ
sub64 a b = (a + word - b) % word

-- int64(n) of a uint64 n
abbrev pub to_int64 : ℕ → ℤ
to_int64 n = if ltb n half_word then pos n else negsuc (word - n - 1)

-- limit > 0 && value > limit
abbrev pub exceeds : ℤ → ℤ → Bool
exceeds (pos limit) (pos value) = ltb 0 limit && ltb limit value
exceeds (pos limit) (negsuc value) = false
exceeds (negsuc limit) value = false

-- d > 0 && now.Sub(at) > d, for instants counted in nanoseconds.
abbrev pub older : ℤ → ℕ → ℕ → Bool
older (pos d) at now = ltb 0 d && ltb (at + d) now
older (negsuc d) at now = false

-- No wrap-around below the top.
pub add64_lem : (n : ℕ) → n + 1 < word → add64 n 1 ≡ n + 1
add64_lem n h = omega arith
