-- ===== src/Murmur/Tests.antt =====
-- The hash at known inputs.
use l7_loadbalancer.Base.{◌≡◌, ◌≢◌, refl, [], ◌∷◌, arith}
use l7_loadbalancer.Types.{FiveTuple}
use l7_loadbalancer.Murmur.{fmix32, rotl32, scramble, mix_block, hash, hash_tuple, Padding}
use l7_loadbalancer.Murmur.Tuple.{hash_tuple_padding}

-- MurmurHash3_x86_32 of "hello" with seed 0.
hello : hash (b'h' ∷ b'e' ∷ b'l' ∷ b'l' ∷ b'o' ∷ []) 0 ≡ 0x248bfa47
unfolding hash mix_block scramble rotl32 fmix32
hello = refl

abbrev flow : FiveTuple
flow = record {
  src_ip = 0x01020304;
  dst_ip = 0x05060708;
  src_port = 80;
  dst_port = 8080;
  protocol = 6;
}

abbrev zeroed : Padding
zeroed = record { first = 0; second = 0; third = 0 }

abbrev dirty : Padding
dirty = record { first = 0; second = 7; third = 0 }

hash_tuple_padding_example : hash_tuple flow zeroed ≢ hash_tuple flow dirty
hash_tuple_padding_example =
    hash_tuple_padding flow zeroed dirty (omega arith) (omega arith) (λ e. cc)
