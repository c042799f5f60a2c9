-- ===== src/Base/Word.antt =====
-- Unsigned machine words: `uint32_t` counters, and `size_t` where lengths are subtracted.
use pirate_servers.Base.{ℕ, ◌+◌, ◌-◌, ◌%◌}

abbrev pub u32_mod : ℕ
u32_mod = 0x100000000

abbrev pub u64_mod : ℕ
u64_mod = 0x10000000000000000

-- `++x` and `--x` at `uint32_t`.
abbrev pub inc32 : ℕ → ℕ
inc32 x = (x + 1) % u32_mod

abbrev pub dec32 : ℕ → ℕ
dec32 x = (x + u32_mod - 1) % u32_mod

-- `a - b` at `size_t`.
abbrev pub sub64 : ℕ → ℕ → ℕ
sub64 a b = (a + u64_mod - b) % u64_mod
