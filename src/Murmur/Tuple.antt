-- ===== src/Murmur/Tuple.antt =====
-- `hash_tuple` on the 16 bytes of a FiveTuple.
use Prim.Native.Nat.{bit_xor}
use l7_loadbalancer.Base.{ℕ, ◌/◌, ◌^◌, ◌<◌, ◌≡◌, refl, sym, ◌∙◌, ◌≢◌, u8, u32, arith}
use l7_loadbalancer.Base.Bits.{bit_xor_inj, bit_xor-lt}
use l7_loadbalancer.Types.{FiveTuple}
use l7_loadbalancer.Murmur.{fmix32, mix_block, absorb, hash, hash_tuple, le32, Padding}
use l7_loadbalancer.Murmur.Inject.{fmix32_inj, mix_block_inj, mix_block_inj_block, mix_block-lt}

-- The four blocks of the object.
ports_word : FiveTuple → ℕ
ports_word t =
    le32 (u8 t.src_port) (u8 (t.src_port / 2 ^ 8)) (u8 t.dst_port) (u8 (t.dst_port / 2 ^ 8))

last_word : FiveTuple → Padding → ℕ
last_word t p = le32 (u8 t.protocol) p.first p.second p.third

ip_word : ℕ → ℕ
ip_word x = le32 (u8 x) (u8 (x / 2 ^ 8)) (u8 (x / 2 ^ 16)) (u8 (x / 2 ^ 24))

chain : ℕ → ℕ → ℕ → ℕ → ℕ
chain a b c d = mix_block (mix_block (mix_block (mix_block 0 a) b) c) d

close : ℕ → ℕ
close h = fmix32 (u32 (bit_xor h 16))

close_inj : (h h' : ℕ) → h < 2 ^ 32 → h' < 2 ^ 32 → close h ≡ close h' → h ≡ h'
unfolding close
close_inj h h' hh hh' e =
    let a = bit_xor-lt 32 h 16 hh (omega arith) in
    let b = bit_xor-lt 32 h' 16 hh' (omega arith) in
    let p = fmix32_inj (u32 (bit_xor h 16)) (u32 (bit_xor h' 16)) (omega arith) (omega arith) e in
    bit_xor_inj h h' 16 (omega arith)

hash_tuple-eq :
    (t : FiveTuple) (p : Padding)
    → hash_tuple t p
      ≡ close (chain (ip_word t.src_ip) (ip_word t.dst_ip) (ports_word t) (last_word t p))
unfolding hash_tuple hash absorb close chain ip_word ports_word last_word
hash_tuple-eq t p = refl

chain_inj_first :
    (a a' b c d : ℕ) → a < 2 ^ 32 → a' < 2 ^ 32 → chain a b c d ≡ chain a' b c d → a ≡ a'
unfolding chain
chain_inj_first a a' b c d ha ha' e =
    let one = mix_block 0 a in
    let one' = mix_block 0 a' in
    let lt = mix_block-lt in
    mix_block_inj_block 0 a a' (omega arith) ha ha' (
      mix_block_inj one one' b (lt 0 a) (lt 0 a') (
        mix_block_inj (mix_block one b) (mix_block one' b) c (lt one b) (lt one' b) (
          mix_block_inj (mix_block (mix_block one b) c) (mix_block (mix_block one' b) c) d (lt _ c)
            (lt _ c) e)))

chain_inj_third :
    (a b c c' d : ℕ) → c < 2 ^ 32 → c' < 2 ^ 32 → chain a b c d ≡ chain a b c' d → c ≡ c'
unfolding chain
chain_inj_third a b c c' d hc hc' e =
    let two = mix_block (mix_block 0 a) b in
    mix_block_inj_block two c c' (mix_block-lt _ b) hc hc' (
      mix_block_inj (mix_block two c) (mix_block two c') d (mix_block-lt two c)
        (mix_block-lt two c') e)

chain_inj_last :
    (a b c d d' : ℕ) → d < 2 ^ 32 → d' < 2 ^ 32 → chain a b c d ≡ chain a b c d' → d ≡ d'
unfolding chain
chain_inj_last a b c d d' hd hd' e = mix_block_inj_block _ d d' (mix_block-lt _ c) hd hd' e

chain-lt : (a b c d : ℕ) → chain a b c d < 2 ^ 32
unfolding chain
chain-lt a b c d = mix_block-lt _ d

ip_word-eq : (x : ℕ) → x < 2 ^ 32 → ip_word x ≡ x
unfolding ip_word
ip_word-eq x h = omega arith

-- Two flows that differ in nothing but the client's address never share a hash, given the same
-- padding bytes.
hash_tuple_src_ip :
    (t : FiveTuple) (p : Padding) (a b : ℕ)
    → a < 2 ^ 32
    → b < 2 ^ 32
    → a ≢ b
    → hash_tuple (record t { src_ip = a }) p ≢ hash_tuple (record t { src_ip = b }) p
unfolding ports_word last_word
hash_tuple_src_ip t p a b ha hb ne e =
    let ta = record t { src_ip = a } in
    let tb = record t { src_ip = b } in
    let q = sym (hash_tuple-eq ta p) ∙ e ∙ hash_tuple-eq tb p in
    ne (
      sym (ip_word-eq a ha)
      ∙ chain_inj_first (ip_word a) (ip_word b) (ip_word t.dst_ip) (ports_word t) (last_word t p)
          (omega (arith, ip_word-eq a ha)) (omega (arith, ip_word-eq b hb))
          (close_inj _ _ (chain-lt _ _ _ _) (chain-lt _ _ _ _) q)
      ∙ ip_word-eq b hb)

ports_word-lt : (t : FiveTuple) → ports_word t < 2 ^ 32
unfolding ports_word
ports_word-lt t = omega arith

ports_word_inj :
    (t : FiveTuple) (a b : ℕ)
    → a < 2 ^ 16
    → b < 2 ^ 16
    → ports_word (record t { src_port = a }) ≡ ports_word (record t { src_port = b })
    → a ≡ b
unfolding ports_word
ports_word_inj t a b ha hb e = omega arith

-- Two flows that differ in nothing but the client's port never share a hash, given the same padding
-- bytes.
pub hash_tuple_src_port :
    (t : FiveTuple) (p : Padding) (a b : ℕ)
    → a < 2 ^ 16
    → b < 2 ^ 16
    → a ≢ b
    → hash_tuple (record t { src_port = a }) p ≢ hash_tuple (record t { src_port = b }) p
unfolding last_word
hash_tuple_src_port t p a b ha hb ne e =
    let ta = record t { src_port = a } in
    let tb = record t { src_port = b } in
    let q = sym (hash_tuple-eq ta p) ∙ e ∙ hash_tuple-eq tb p in
    ne (
      ports_word_inj t a b ha hb (
        chain_inj_third (ip_word t.src_ip) (ip_word t.dst_ip) (ports_word ta) (ports_word tb)
          (last_word t p) (ports_word-lt ta) (ports_word-lt tb)
          (close_inj _ _ (chain-lt _ _ _ _) (chain-lt _ _ _ _) q)))

-- The padding bytes are bytes.
pub record IsPadding (p : Padding) : Type 0 where
  pub first_fits : p.first < 2 ^ 8
  pub second_fits : p.second < 2 ^ 8
  pub third_fits : p.third < 2 ^ 8

-- One and the same tuple hashes differently for every difference in the padding bytes of the object,
-- which `operator==` does not see.
pub hash_tuple_padding :
    (t : FiveTuple) (p q : Padding)
    → IsPadding p
    → IsPadding q
    → p ≢ q
    → hash_tuple t p ≢ hash_tuple t q
unfolding last_word
hash_tuple_padding t p q hp hq ne e =
    let r = sym (hash_tuple-eq t p) ∙ e ∙ hash_tuple-eq t q in
    let w : last_word t p ≡ last_word t q =
      chain_inj_last (ip_word t.src_ip) (ip_word t.dst_ip) (ports_word t) (last_word t p)
        (last_word t q) (omega arith) (omega arith)
        (close_inj _ _ (chain-lt _ _ _ _) (chain-lt _ _ _ _) r) in
    ne (ground arith)
