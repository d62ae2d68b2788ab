-- ===== src/Prelude/Words.antt =====
-- Machine words: 32 and 64 bit wrap-around, and the complement.
use Prim.Native.Nat.{ℕ, ◌+◌, ◌-◌, ◌%◌, ◌^◌}

-- `uintptr_t`, `size_t` and `unsigned long` are 64 bits wide.
abbrev pub u64 : ℕ → ℕ
u64 n = n % 2 ^ 64

abbrev pub u32 : ℕ → ℕ
u32 n = n % 2 ^ 32

-- `a - b` on 64 bits; `-` on ℕ stops at 0.
abbrev pub sub64 : ℕ → ℕ → ℕ
sub64 a b = (a + 2 ^ 64 - b) % 2 ^ 64

-- `~w` on words of `n` bits.
abbrev pub complement : ℕ → ℕ → ℕ
complement n w = 2 ^ n - 1 - w
