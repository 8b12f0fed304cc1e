-- ===== src/Align.antt =====
-- align_up and align_down of subiquity/models/filesystem.py, on the naturals that sizes and offsets
-- are, and on the integers that a difference of two sizes may be. The laws stand in Align/.
pub mod Bits
pub mod Laws
pub mod Example
use Prim.Native.Nat.{bit_and, bit_or}
use subiquity.Base.{ℕ, ◌+◌, ◌-◌, ◌*◌}
use subiquity.Base.Ints.{ℤ, pos, negsuc}

abbrev pub mib : ℕ
mib = 1024 * 1024

abbrev pub gib : ℕ
gib = 1024 * 1024 * 1024

-- `x & ~m`: the bits of `x` that `m` does not have, which is what is left of `x` without `x & m`.
abbrev pub clear_bits : ℕ → ℕ → ℕ
clear_bits x m = x - bit_and x m

unfoldable pub align_up : ℕ → ℕ → ℕ
align_up size block_size = clear_bits (size + block_size - 1) (block_size - 1)

unfoldable pub align_down : ℕ → ℕ → ℕ
align_down size block_size = clear_bits size (block_size - 1)

-- For a negative `size`, -(n + 1), the two's complement of `size & ~m` is that of `n | m`.
unfoldable pub align_down_signed : ℤ → ℕ → ℤ
align_down_signed (pos n) block_size = pos (clear_bits n (block_size - 1))
align_down_signed (negsuc n) block_size = negsuc (bit_or n (block_size - 1))
