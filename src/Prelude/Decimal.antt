-- ===== src/Prelude/Decimal.antt =====
-- Decimal print of unsigned 64-bit numbers: formatUint of v2/bus/memory/store.go.
use Prim.Native.Nat.{ℕ, zero, suc, ◌+◌, ◌*◌, ◌/◌, ◌%◌, ◌^◌, ◌<◌, ◌≤◌, ◌-◌}
use mathlib.Core.Path.{◌≡◌, refl, sym, ap, ◌∙◌}
use mathlib.Core.Logic.{inl, inr}
use native.Mathlib.Nat.{pow-suc}
use mathlib.Core.List.{[], ◌∷◌}
use native.Mathlib.Omega.{arith}
use bytedesk_sdk_dependencie.Prelude.Tests.{◌==◌, if◌then◌else◌, Bool-cases}
use bytedesk_sdk_dependencie.Prelude.Lists.{length}
use bytedesk_sdk_dependencie.Prelude.Bytes.{Text, Lacks, contains_byte}

-- The loop writes digits from the right into the array b; its 20 places are the fuel.
unfoldable pub digits_loop : ℕ → ℕ → Text → Text
digits_loop zero n b = b
digits_loop (suc places) n b =
    let rest = digits_loop places (n / 10) ((b'0' + n % 10) ∷ b) in if n == 0 then b else rest

unfoldable pub format_uint : ℕ → Text
format_uint n = if n == 0 then b'0' ∷ [] else digits_loop 20 n []

-- The number that a run of decimal digits stands for, read from the left.
unfoldable pub decimal_value : ℕ → Text → ℕ
decimal_value acc [] = acc
decimal_value acc (c ∷ t) = decimal_value (acc * 10 + (c - b'0')) t

digits_loop-value :
    (places n : ℕ) (b : Text)
    → n < 10 ^ places
    → decimal_value 0 (digits_loop places n b) ≡ decimal_value n b
unfolding digits_loop decimal_value
digits_loop-value zero n b h = ap (λ k. decimal_value k b) (omega arith)
digits_loop-value (suc places) n b h = elim (Bool-cases (n == 0)) [
  | inl e ↦ rw e (ap (λ k. decimal_value k b) (ground arith))
  | inr e ↦ rw e (
      digits_loop-value places (n / 10) ((b'0' + n % 10) ∷ b) (omega (arith, pow-suc 10 places))
      ∙ ap (λ k. decimal_value k b) (omega arith))
]

-- Reading the printed number gives it back, for every number of 64 bits.
pub decimal_value-format_uint : (n : ℕ) → n < 2 ^ 64 → decimal_value 0 (format_uint n) ≡ n
unfolding format_uint
decimal_value-format_uint n h = elim (Bool-cases (n == 0)) [
  | inl e ↦ rw e (unfold decimal_value in ground arith)
  | inr e ↦ rw e (digits_loop-value 20 n [] (omega arith) ∙ unfold decimal_value in refl)
]

digits_loop-Lacks :
    (sep places n : ℕ) (b : Text) → b'9' < sep → Lacks sep b → Lacks sep (digits_loop places n b)
unfolding digits_loop contains_byte
digits_loop-Lacks sep zero n b h l = l
digits_loop-Lacks sep (suc places) n b h l =
    ground (arith, digits_loop-Lacks sep places (n / 10) ((b'0' + n % 10) ∷ b))

-- The printed number has digits only, so no byte behind them.
pub format_uint-Lacks : (sep n : ℕ) → b'9' < sep → Lacks sep (format_uint n)
unfolding format_uint contains_byte
format_uint-Lacks sep n h = ground (arith, digits_loop-Lacks sep 20 n [])

-- Different numbers of 64 bits are printed differently.
pub format_uint_injective :
    (n k : ℕ) → n < 2 ^ 64 → k < 2 ^ 64 → format_uint n ≡ format_uint k → n ≡ k
format_uint_injective n k hn hk h =
    sym (decimal_value-format_uint n hn) ∙ (ap (decimal_value 0) h ∙ decimal_value-format_uint k hk)

length-digits_loop : (places n : ℕ) (b : Text) → length (digits_loop places n b) ≤ places + length b
unfolding digits_loop
length-digits_loop zero n b = omega arith
length-digits_loop (suc places) n b =
    ground (arith, length-digits_loop places (n / 10) ((b'0' + n % 10) ∷ b))

pub length-format_uint : (n : ℕ) → length (format_uint n) ≤ 20
unfolding format_uint
length-format_uint n = ground (arith, length-digits_loop 20 n [])
