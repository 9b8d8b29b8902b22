-- ===== src/Murmur.antt =====
-- MurmurHash3 of include/lb/consistent_hash.h. A key is its list of bytes; a block is read in the
-- little-endian order of the machines that the project builds for.
pub mod Inject
pub mod Tuple
mod Tests
use Prim.Native.Nat.{bit_or, bit_xor}
use l7_loadbalancer.Base.{ℕ, ◌+◌, ◌-◌, ◌*◌, ◌/◌, ◌%◌, ◌^◌, List, [], ◌∷◌, ◌++◌, length, u8, u32}
use l7_loadbalancer.Types.{FiveTuple}

-- `rotl32`
unfoldable pub rotl32 : ℕ → ℕ → ℕ
rotl32 x r = bit_or (u32 (x * 2 ^ r)) (x / 2 ^ (32 - r))

unfoldable pub fmix32 : ℕ → ℕ
fmix32 h0 =
    let h1 = bit_xor h0 (h0 / 2 ^ 16) in
    let h2 = u32 (h1 * 0x85ebca6b) in
    let h3 = bit_xor h2 (h2 / 2 ^ 13) in let h4 = u32 (h3 * 0xc2b2ae35) in bit_xor h4 (h4 / 2 ^ 16)

-- What is done to `k1`, in the body and in the tail.
unfoldable pub scramble : ℕ → ℕ
scramble k = u32 (rotl32 (u32 (k * 0xcc9e2d51)) 15 * 0x1b873593)

-- One round of the loop over the blocks.
unfoldable pub mix_block : ℕ → ℕ → ℕ
mix_block h k = u32 (rotl32 (bit_xor h (scramble k)) 13 * 5 + 0xe6546b64)

abbrev pub le32 : ℕ → ℕ → ℕ → ℕ → ℕ
le32 a b c d = a + 2 ^ 8 * b + 2 ^ 16 * c + 2 ^ 24 * d

-- The `switch` on `len & 3`, with its fall-through.
mix_tail : ℕ → List ℕ → ℕ
mix_tail h [] = h
mix_tail h (a ∷ []) = bit_xor h (scramble (bit_xor 0 a))
mix_tail h (a ∷ b ∷ []) = bit_xor h (scramble (bit_xor (bit_xor 0 (b * 2 ^ 8)) a))
mix_tail h (a ∷ b ∷ c ∷ _) =
    bit_xor h (scramble (bit_xor (bit_xor (bit_xor 0 (c * 2 ^ 16)) (b * 2 ^ 8)) a))

-- The blocks, then the bytes that are left.
absorb : ℕ → List ℕ → ℕ
unfolding mix_tail
absorb h [] = mix_tail h []
absorb h (a ∷ []) = mix_tail h (a ∷ [])
absorb h (a ∷ b ∷ []) = mix_tail h (a ∷ b ∷ [])
absorb h (a ∷ b ∷ c ∷ []) = mix_tail h (a ∷ b ∷ c ∷ [])
absorb h (a ∷ b ∷ c ∷ d ∷ rest) = absorb (mix_block h (le32 a b c d)) rest

unfoldable pub hash : List ℕ → ℕ → ℕ
unfolding absorb
hash key seed = fmix32 (u32 (bit_xor (absorb seed key) (length key)))

abbrev pub bytes16 : ℕ → List ℕ
bytes16 x = u8 x ∷ u8 (x / 2 ^ 8) ∷ []

abbrev pub bytes32 : ℕ → List ℕ
bytes32 x = u8 x ∷ u8 (x / 2 ^ 8) ∷ u8 (x / 2 ^ 16) ∷ u8 (x / 2 ^ 24) ∷ []

-- The three bytes that fill a FiveTuple up to `sizeof(FiveTuple)`. No constructor sets them.
pub record Padding : Type 0 where
  pub first : ℕ
  pub second : ℕ
  pub third : ℕ

-- The 16 bytes of the object.
abbrev pub tuple_bytes : FiveTuple → Padding → List ℕ
tuple_bytes t p =
    bytes32 t.src_ip
    ++ (bytes32 t.dst_ip
        ++ (bytes16 t.src_port
            ++ (bytes16 t.dst_port ++ u8 t.protocol ∷ p.first ∷ p.second ∷ p.third ∷ [])))

unfoldable pub hash_tuple : FiveTuple → Padding → ℕ
hash_tuple t p = hash (tuple_bytes t p) 0
