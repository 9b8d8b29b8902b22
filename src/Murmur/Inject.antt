-- ===== src/Murmur/Inject.antt =====
-- The steps of MurmurHash3 lose nothing of a block.
use Prim.Native.Nat.{bit_xor}
use l7_loadbalancer.Base.{ℕ, ◌+◌, ◌*◌, ◌/◌, ◌%◌, ◌^◌, ◌<◌, ◌≡◌, sym, ap, ◌∙◌, List, u32, arith}
use l7_loadbalancer.Base.Bits.{
  bit_xor_inj, bit_xor_comm, bit_xor-zero, bit_xor-lt, bit_xor-shr, bit_or_fields,
}
use l7_loadbalancer.Types.{FiveTuple}
use l7_loadbalancer.Murmur.{
  rotl32, fmix32, scramble, mix_block, hash, hash_tuple, Padding, tuple_bytes,
}

rotl32_13 : (x : ℕ) → x < 2 ^ 32 → rotl32 x 13 ≡ x % 2 ^ 19 * 2 ^ 13 + x / 2 ^ 19
unfolding rotl32
rotl32_13 x h =
    let e : u32 (x * 2 ^ 13) ≡ x % 2 ^ 19 * 2 ^ 13 = omega arith in
    rw e (bit_or_fields 13 (x % 2 ^ 19) (x / 2 ^ 19) (omega arith))

rotl32_15 : (x : ℕ) → x < 2 ^ 32 → rotl32 x 15 ≡ x % 2 ^ 17 * 2 ^ 15 + x / 2 ^ 17
unfolding rotl32
rotl32_15 x h =
    let e : u32 (x * 2 ^ 15) ≡ x % 2 ^ 17 * 2 ^ 15 = omega arith in
    rw e (bit_or_fields 15 (x % 2 ^ 17) (x / 2 ^ 17) (omega arith))

-- Multiplication by an odd constant can be undone.
odd_85ebca6b : (x : ℕ) → x < 2 ^ 32 → u32 (u32 (x * 0x85ebca6b) * 0xa5cb9243) ≡ x
odd_85ebca6b x h = omega arith

odd_c2b2ae35 : (x : ℕ) → x < 2 ^ 32 → u32 (u32 (x * 0xc2b2ae35) * 0x7ed1b41d) ≡ x
odd_c2b2ae35 x h = omega arith

odd_cc9e2d51 : (x : ℕ) → x < 2 ^ 32 → u32 (u32 (x * 0xcc9e2d51) * 0xdee13bb1) ≡ x
odd_cc9e2d51 x h = omega arith

odd_1b873593 : (x : ℕ) → x < 2 ^ 32 → u32 (u32 (x * 0x1b873593) * 0x56ed309b) ≡ x
odd_1b873593 x h = omega arith

-- Equal products by an odd constant come from equal factors.
odd_inj :
    (c inv x y : ℕ)
    → u32 (u32 (x * c) * inv) ≡ x
    → u32 (u32 (y * c) * inv) ≡ y
    → u32 (x * c) ≡ u32 (y * c)
    → x ≡ y
odd_inj c inv x y hx hy e = sym hx ∙ ap (λ t. u32 (t * inv)) e ∙ hy

rotl32_13_inj : (x y : ℕ) → x < 2 ^ 32 → y < 2 ^ 32 → rotl32 x 13 ≡ rotl32 y 13 → x ≡ y
rotl32_13_inj x y hx hy e = omega (arith, rotl32_13 x hx, rotl32_13 y hy)

rotl32_15_inj : (x y : ℕ) → x < 2 ^ 32 → y < 2 ^ 32 → rotl32 x 15 ≡ rotl32 y 15 → x ≡ y
rotl32_15_inj x y hx hy e = omega (arith, rotl32_15 x hx, rotl32_15 y hy)

rotl32_13-lt : (x : ℕ) → x < 2 ^ 32 → rotl32 x 13 < 2 ^ 32
rotl32_13-lt x h = omega (arith, rotl32_13 x h)

rotl32_15-lt : (x : ℕ) → x < 2 ^ 32 → rotl32 x 15 < 2 ^ 32
rotl32_15-lt x h = omega (arith, rotl32_15 x h)

-- The high half of `h ^ (h >> k)`, and what it leaves to know.
high_part : (k x : ℕ) → bit_xor x (x / 2 ^ k) / 2 ^ k ≡ bit_xor (x / 2 ^ k) (x / 2 ^ k / 2 ^ k)
high_part k x = bit_xor-shr k x (x / 2 ^ k)

-- `h ^ (h >> k)` and `h >> k` determine `h`.
xor_low :
    (k x y : ℕ) → x / 2 ^ k ≡ y / 2 ^ k → bit_xor x (x / 2 ^ k) ≡ bit_xor y (y / 2 ^ k) → x ≡ y
xor_low k x y low e = bit_xor_inj x y (x / 2 ^ k) (e ∙ ap (λ t. bit_xor y t) (sym low))

xorshift_16_inj :
    (x y : ℕ) → x < 2 ^ 32 → y < 2 ^ 32 → bit_xor x (x / 2 ^ 16) ≡ bit_xor y (y / 2 ^ 16) → x ≡ y
xorshift_16_inj x y hx hy e = xor_low 16 x y (sym (top x hx) ∙ ap (λ t. t / 2 ^ 16) e ∙ top y hy) e
  where
    top : (z : ℕ) → z < 2 ^ 32 → bit_xor z (z / 2 ^ 16) / 2 ^ 16 ≡ z / 2 ^ 16
    top z hz =
        let gone : z / 2 ^ 16 / 2 ^ 16 ≡ 0 = omega arith in
        high_part 16 z ∙ ap (λ t. bit_xor (z / 2 ^ 16) t) gone ∙ bit_xor-zero (z / 2 ^ 16)

xorshift_13_inj :
    (x y : ℕ) → x < 2 ^ 32 → y < 2 ^ 32 → bit_xor x (x / 2 ^ 13) ≡ bit_xor y (y / 2 ^ 13) → x ≡ y
xorshift_13_inj x y hx hy e = xor_low 13 x y (xor_low 13 (x / 2 ^ 13) (y / 2 ^ 13) low mid) e
  where
    mid : bit_xor (x / 2 ^ 13) (x / 2 ^ 13 / 2 ^ 13) ≡ bit_xor (y / 2 ^ 13) (y / 2 ^ 13 / 2 ^ 13)
    mid = sym (high_part 13 x) ∙ ap (λ t. t / 2 ^ 13) e ∙ high_part 13 y

    top : (z : ℕ) → z < 2 ^ 19 → bit_xor z (z / 2 ^ 13) / 2 ^ 13 ≡ z / 2 ^ 13
    top z hz =
        let gone : z / 2 ^ 13 / 2 ^ 13 ≡ 0 = omega arith in
        high_part 13 z ∙ ap (λ t. bit_xor (z / 2 ^ 13) t) gone ∙ bit_xor-zero (z / 2 ^ 13)

    low : x / 2 ^ 13 / 2 ^ 13 ≡ y / 2 ^ 13 / 2 ^ 13
    low =
        sym (top (x / 2 ^ 13) (omega arith))
        ∙ ap (λ t. t / 2 ^ 13) mid
        ∙ top (y / 2 ^ 13) (omega arith)

-- The finaliser is one-to-one on 32-bit words.
pub fmix32_inj : (x y : ℕ) → x < 2 ^ 32 → y < 2 ^ 32 → fmix32 x ≡ fmix32 y → x ≡ y
unfolding fmix32
fmix32_inj x y hx hy e =
    let x1 = bit_xor x (x / 2 ^ 16) in
    let y1 = bit_xor y (y / 2 ^ 16) in
    let x2 = u32 (x1 * 0x85ebca6b) in
    let y2 = u32 (y1 * 0x85ebca6b) in
    let x3 = bit_xor x2 (x2 / 2 ^ 13) in
    let y3 = bit_xor y2 (y2 / 2 ^ 13) in
    let bx1 = bit_xor-lt 32 x (x / 2 ^ 16) hx (omega arith) in
    let by1 = bit_xor-lt 32 y (y / 2 ^ 16) hy (omega arith) in
    let bx3 = bit_xor-lt 32 x2 (x2 / 2 ^ 13) (omega arith) (omega arith) in
    let by3 = bit_xor-lt 32 y2 (y2 / 2 ^ 13) (omega arith) (omega arith) in
    let e4 =
      xorshift_16_inj (u32 (x3 * 0xc2b2ae35)) (u32 (y3 * 0xc2b2ae35)) (omega arith) (omega arith)
        e in
    let e3 = odd_inj 0xc2b2ae35 0x7ed1b41d x3 y3 (odd_c2b2ae35 x3 bx3) (odd_c2b2ae35 y3 by3) e4 in
    let e2 = xorshift_13_inj x2 y2 (omega arith) (omega arith) e3 in
    let e1 = odd_inj 0x85ebca6b 0xa5cb9243 x1 y1 (odd_85ebca6b x1 bx1) (odd_85ebca6b y1 by1) e2 in
    xorshift_16_inj x y hx hy e1

pub scramble_inj : (x y : ℕ) → x < 2 ^ 32 → y < 2 ^ 32 → scramble x ≡ scramble y → x ≡ y
unfolding scramble
scramble_inj x y hx hy e =
    let kx = u32 (x * 0xcc9e2d51) in
    let ky = u32 (y * 0xcc9e2d51) in
    let p : rotl32 kx 15 ≡ rotl32 ky 15 =
      odd_inj 0x1b873593 0x56ed309b (rotl32 kx 15) (rotl32 ky 15)
        (odd_1b873593 (rotl32 kx 15) (rotl32_15-lt kx (omega arith)))
        (odd_1b873593 (rotl32 ky 15) (rotl32_15-lt ky (omega arith))) e in
    odd_inj 0xcc9e2d51 0xdee13bb1 x y (odd_cc9e2d51 x hx) (odd_cc9e2d51 y hy)
      (rotl32_15_inj kx ky (omega arith) (omega arith) p)

scramble-lt : (x : ℕ) → scramble x < 2 ^ 32
unfolding scramble
scramble-lt x = omega arith

affine_inj :
    (x y : ℕ)
    → x < 2 ^ 32
    → y < 2 ^ 32
    → u32 (x * 5 + 0xe6546b64) ≡ u32 (y * 5 + 0xe6546b64)
    → x ≡ y
affine_inj x y hx hy e = omega arith

-- For one block the next state determines the state before it.
pub mix_block_inj :
    (h h' k : ℕ) → h < 2 ^ 32 → h' < 2 ^ 32 → mix_block h k ≡ mix_block h' k → h ≡ h'
unfolding mix_block
mix_block_inj h h' k hh hh' e =
    let s = scramble k in
    let a = bit_xor-lt 32 h s hh (scramble-lt k) in
    let b = bit_xor-lt 32 h' s hh' (scramble-lt k) in
    let p : rotl32 (bit_xor h s) 13 ≡ rotl32 (bit_xor h' s) 13 =
      affine_inj (rotl32 (bit_xor h s) 13) (rotl32 (bit_xor h' s) 13) (rotl32_13-lt _ a)
        (rotl32_13-lt _ b) e in
    bit_xor_inj h h' s (rotl32_13_inj (bit_xor h s) (bit_xor h' s) a b p)

-- For one state the next state determines the block.
pub mix_block_inj_block :
    (h k k' : ℕ) → h < 2 ^ 32 → k < 2 ^ 32 → k' < 2 ^ 32 → mix_block h k ≡ mix_block h k' → k ≡ k'
unfolding mix_block
mix_block_inj_block h k k' hh hk hk' e =
    let s = scramble k in
    let s' = scramble k' in
    let a = bit_xor-lt 32 h s hh (scramble-lt k) in
    let b = bit_xor-lt 32 h s' hh (scramble-lt k') in
    let p : rotl32 (bit_xor h s) 13 ≡ rotl32 (bit_xor h s') 13 =
      affine_inj (rotl32 (bit_xor h s) 13) (rotl32 (bit_xor h s') 13) (rotl32_13-lt _ a)
        (rotl32_13-lt _ b) e in
    let q : bit_xor h s ≡ bit_xor h s' = rotl32_13_inj (bit_xor h s) (bit_xor h s') a b p in
    scramble_inj k k' hk hk' (bit_xor_inj s s' h (bit_xor_comm s h ∙ q ∙ bit_xor_comm h s'))

pub mix_block-lt : (h k : ℕ) → mix_block h k < 2 ^ 32
unfolding mix_block
mix_block-lt h k = omega arith

fmix32-lt : (x : ℕ) → fmix32 x < 2 ^ 32
unfolding fmix32
fmix32-lt x =
    let x1 = bit_xor x (x / 2 ^ 16) in
    let x2 = u32 (x1 * 0x85ebca6b) in
    let x4 = u32 (bit_xor x2 (x2 / 2 ^ 13) * 0xc2b2ae35) in
    bit_xor-lt 32 x4 (x4 / 2 ^ 16) (omega arith) (omega arith)

pub hash-lt : (key : List ℕ) (seed : ℕ) → hash key seed < 2 ^ 32
unfolding hash
hash-lt key seed = fmix32-lt _

pub hash_tuple-lt : (t : FiveTuple) (p : Padding) → hash_tuple t p < 2 ^ 32
unfolding hash_tuple
hash_tuple-lt t p = hash-lt (tuple_bytes t p) 0
