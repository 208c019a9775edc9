-- ===== src/Base/Words.antt =====
-- std::size_t and std::uint64_t as 64-bit words: every sum and difference wraps.
use Prim.Native.Nat.{ℕ, ◌+◌, ◌-◌, ◌%◌, ◌^◌, ◌≤◌, ◌<◌}
use mathlib.Core.Path.{◌≡◌}
use native.Mathlib.Omega.{arith}

abbrev pub word_mod : ℕ
word_mod = 2 ^ 64

abbrev pub add64 : ℕ → ℕ → ℕ
add64 a b = (a + b) % 2 ^ 64

abbrev pub sub64 : ℕ → ℕ → ℕ
sub64 a b = (a + 2 ^ 64 - b) % 2 ^ 64

pub add64_assoc : (a b c : ℕ) → add64 (add64 a b) c ≡ add64 a (add64 b c)
add64_assoc a b c = omega arith

pub add64_right_comm : (a b c : ℕ) → add64 (add64 a b) c ≡ add64 (add64 a c) b
add64_right_comm a b c = omega arith

pub sub64_exact : (a b : ℕ) → a < 2 ^ 64 → b ≤ a → sub64 a b ≡ a - b
sub64_exact a b h k = omega arith

pub add64-zero : (a : ℕ) → a < 2 ^ 64 → add64 a 0 ≡ a
add64-zero a h = omega arith
