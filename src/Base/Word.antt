-- ===== src/Base/Word.antt =====
-- uint64 and int64 as native numbers below 2 ^ 64. An int64 is kept as its bit pattern, so that
-- the conversions `int64(x)` and `uint64(x)` are the identity; the signed tests read the sign bit.
use Prim.Native.Nat.{ℕ, ◌+◌, ◌-◌, ◌%◌, ◌^◌, ◌<◌}
use mathlib.Core.Path.{◌≡◌}
use mathlib.Core.Logic.{◌≢◌}
use mathlib.Core.Bool.{Bool, true, false}
use native.Mathlib.Omega.{arith}
use algorand_state_channels.Base.Tests.{ltb}

abbrev pub word_mod : ℕ
word_mod = 2 ^ 64

abbrev pub sign_bit : ℕ
sign_bit = 2 ^ 63

abbrev pub IsWord : ℕ → Type 0
IsWord n = n < 2 ^ 64

-- `a + b`, `a - b` and `(-1) * a`, in uint64 and int64 alike.
abbrev pub add64 : ℕ → ℕ → ℕ
add64 a b = (a + b) % word_mod

abbrev pub sub64 : ℕ → ℕ → ℕ
sub64 a b = (a + word_mod - b) % word_mod

abbrev pub neg64 : ℕ → ℕ
neg64 a = (word_mod - a) % word_mod

-- `a < b` between int64 values: shift both by 2 ^ 63 and compare.
unfoldable pub slt : ℕ → ℕ → Bool
slt a b = ltb ((a + sign_bit) % word_mod) ((b + sign_bit) % word_mod)

-- On values that are not negative the signed order is the order of numbers.
pub slt_of_nonneg : (a b : ℕ) → a < sign_bit → b < sign_bit → slt a b ≡ ltb a b
unfolding slt
slt_of_nonneg a b ha hb = ground arith

pub slt_zero : (a : ℕ) → IsWord a → slt 0 a ≡ true → (0 < a) × (a < sign_bit)
unfolding slt
slt_zero a ha h = ground arith

-- It is a strict order, total on words.
pub slt_irrefl : (a : ℕ) → slt a a ≡ false
unfolding slt
slt_irrefl a = ground arith

pub slt_trans : (a b c : ℕ) → slt a b ≡ true → slt b c ≡ true → slt a c ≡ true
unfolding slt
slt_trans a b c h k = ground arith

pub slt_asymm : (a b : ℕ) → slt a b ≡ true → slt b a ≡ false
unfolding slt
slt_asymm a b h = ground arith

pub slt-of_not : (a b c : ℕ) → slt a b ≡ true → slt a c ≡ false → slt b c ≡ false
unfolding slt
slt-of_not a b c h k = ground arith

pub slt_total : (a b : ℕ) → IsWord a → IsWord b → slt a b ≡ false → slt b a ≡ false → a ≡ b
unfolding slt
slt_total a b ha hb h k = ground arith

pub slt-ne : (a b : ℕ) → slt a b ≡ true → a ≢ b
unfolding slt
slt-ne a b h e = ground arith
