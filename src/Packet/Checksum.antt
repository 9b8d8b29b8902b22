-- ===== src/Packet/Checksum.antt =====
-- IpChecksum of include/protocol/ip.h. A header is its bytes; the 16-bit words are read little-endian.
-- `none` is a read past the end of the buffer, or a loop that outlives its fuel.
pub mod Fold
pub mod Words
pub mod Update
use l7_loadbalancer.Base.{
  ℕ, zero, suc, ◌+◌, ◌-◌, ◌*◌, ◌/◌, ◌%◌, ◌^◌, List, [], ◌∷◌, Option, none, some, leb, ◌==◌,
  if◌then◌else◌, u16, u32, length, take, drop, set, ◌>>=◌,
}
use l7_loadbalancer.Packet.{ip_header_len}

-- The loop over the words, with the odd byte at the end, from `sum` on.
unfoldable pub sum_words : ℕ → List ℕ → ℕ
sum_words sum [] = sum
sum_words sum (a ∷ []) = u32 (sum + a)
sum_words sum (a ∷ b ∷ rest) = sum_words (u32 (sum + (a + b * 2 ^ 8))) rest

-- `while (sum >> 16)`. The sum of two 16-bit numbers has at most one bit more, so three rounds end it.
unfoldable pub fold : ℕ → ℕ → Option ℕ
fold zero sum = none
fold (suc fuel) sum =
    let rest = fold fuel (sum % 2 ^ 16 + sum / 2 ^ 16) in
    if sum / 2 ^ 16 == 0 then some sum else rest

abbrev pub fold_fuel : ℕ
fold_fuel = 4

-- `~x` in 16 bits.
abbrev pub not16 : ℕ → ℕ
not16 x = 65535 - u16 x

unfoldable pub calculate : List ℕ → Option ℕ
calculate header = do s ← fold fold_fuel (sum_words 0 header); some (not16 s)

-- The bytes of `[off, off + n)`.
unfoldable pub slice : List ℕ → ℕ → ℕ → Option (List ℕ)
slice xs off n = if leb (off + n) (length xs) then some (take n (drop off xs)) else none

-- A uint16_t written to memory.
unfoldable pub store16 : List ℕ → ℕ → ℕ → List ℕ
store16 xs i v = set (set xs i (v % 256)) (i + 1) (v / 256 % 256)

-- `update`, on the header at offset `l3` of a frame.
unfoldable pub update : List ℕ → ℕ → Option (List ℕ)
update frame l3 =
    let blank = store16 frame (l3 + 10) 0 in
    do
      header ← slice blank l3 (ip_header_len blank l3)
      c ← calculate header
      some (store16 blank (l3 + 10) c)

unfoldable pub incremental_update : ℕ → ℕ → ℕ → Option ℕ
incremental_update old_sum old_val new_val = do
  s ← fold fold_fuel (u32 (not16 old_sum + not16 old_val + new_val))
  some (not16 s)
