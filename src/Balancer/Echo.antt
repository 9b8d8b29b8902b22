-- ===== src/Balancer/Echo.antt =====
-- The frame of an answer to a ping.
use l7_loadbalancer.Base.{
  ℕ, ◌+◌, ◌/◌, ◌%◌, ◌^◌, ◌≤◌, ◌<◌, ◌≡◌, refl, List, [], ◌∷◌, some, true, arith, length, All, set,
}
use l7_loadbalancer.Murmur.{Padding}
use l7_loadbalancer.Packet.{PacketMeta, read8, read16, read32, ip_header_len}
use l7_loadbalancer.Packet.Checksum.{calculate, store16}
use l7_loadbalancer.Packet.Checksum.Update.{
  HasHeader, header_of, with_checksum, update-calculate, All-store16,
}
use l7_loadbalancer.Packet.Checksum.Words.{All-set, All-take-drop}
use l7_loadbalancer.Packet.Headers.{
  swap_mac, swap_ip, get_dst_mac, get_src_mac, splice, bytes_at, set_src_ip, set_dst_ip, store32,
}
use l7_loadbalancer.Balancer.{Forward, Balancer}
use l7_loadbalancer.Balancer.Dispatch.{Replies, count_tx, echo_reply}

-- The two pairs of addresses of frame `f` stand in `g` the other way round.
pub record Swapped (f g : List ℕ) : Type 0 where
  pub dst_mac : get_dst_mac g ≡ get_src_mac f
  pub src_mac : get_src_mac g ≡ get_dst_mac f
  pub src_ip : read32 g 26 ≡ read32 f 30
  pub dst_ip : read32 g 30 ≡ read32 f 26

swap_lem :
    (f : List ℕ) (c : ℕ)
    → 34 ≤ length f
    → All (λ x. x < 256) f
    → Swapped f (with_checksum (swap_ip (swap_mac f) 14) 14 c)
unfolding swap_mac swap_ip get_dst_mac get_src_mac splice bytes_at set_src_ip set_dst_ip store32
    store16 read32 read16 read8
swap_lem
      (m0 ∷ m1 ∷ m2 ∷ m3 ∷ m4 ∷ m5 ∷ m6 ∷ m7 ∷ m8 ∷ m9 ∷ m10 ∷ m11 ∷ t0 ∷ t1 ∷ i0 ∷ i1 ∷ i2 ∷ i3
        ∷ i4 ∷ i5 ∷ i6 ∷ i7 ∷ i8 ∷ i9 ∷ k0 ∷ k1 ∷ s0 ∷ s1 ∷ s2 ∷ s3 ∷ d0 ∷ d1 ∷ d2 ∷ d3 ∷ rest)
      c h b =
    record { dst_mac = refl; src_mac = refl; src_ip = omega arith; dst_ip = omega arith }
swap_lem _ c h b = absurd (omega arith)

All-splice :
    (bs xs : List ℕ) (i : ℕ)
    → All (λ x. x < 256) bs
    → All (λ x. x < 256) xs
    → All (λ x. x < 256) (splice xs i bs)
unfolding splice
All-splice [] xs i hb hx = hx
All-splice (b ∷ bs) xs i hb hx = All-splice bs (set xs i b) (i + 1) hb.1 (All-set i b xs hb.0 hx)

All-store32 : (xs : List ℕ) (i v : ℕ) → All (λ x. x < 256) xs → All (λ x. x < 256) (store32 xs i v)
unfolding store32
All-store32 xs i v h =
    All-store16 (store16 xs i (v % 2 ^ 16)) (i + 2) (v / 2 ^ 16) (All-store16 xs i (v % 2 ^ 16) h)

All-swap :
    (f : List ℕ) (l3 : ℕ) → All (λ x. x < 256) f → All (λ x. x < 256) (swap_ip (swap_mac f) l3)
unfolding swap_mac swap_ip bytes_at set_src_ip set_dst_ip
All-swap f l3 h =
    let f1 = splice f 0 (bytes_at f 6 6) in
    let f2 = splice f1 6 (bytes_at f 0 6) in
    let h1 = All-splice (bytes_at f 6 6) f 0 (All-take-drop 6 6 f h) h in
    let h2 = All-splice (bytes_at f 0 6) f1 6 (All-take-drop 0 6 f h) h1 in
    All-store32 (store32 f2 (l3 + 12) (read32 f2 (l3 + 16))) (l3 + 16) (read32 f2 (l3 + 12))
      (All-store32 f2 (l3 + 12) (read32 f2 (l3 + 16)) h2)

-- The swaps keep the length and the first byte of the IP header.
swap_shape :
    (f : List ℕ)
    → 34 ≤ length f
    → (length (swap_ip (swap_mac f) 14) ≡ length f)
      × (read8 (swap_ip (swap_mac f) 14) 14 ≡ read8 f 14)
unfolding swap_mac swap_ip splice bytes_at set_src_ip set_dst_ip store32 store16 read32 read16 read8
swap_shape
      (m0 ∷ m1 ∷ m2 ∷ m3 ∷ m4 ∷ m5 ∷ m6 ∷ m7 ∷ m8 ∷ m9 ∷ m10 ∷ m11 ∷ t0 ∷ t1 ∷ i0 ∷ i1 ∷ i2 ∷ i3
        ∷ i4 ∷ i5 ∷ i6 ∷ i7 ∷ i8 ∷ i9 ∷ k0 ∷ k1 ∷ s0 ∷ s1 ∷ s2 ∷ s3 ∷ d0 ∷ d1 ∷ d2 ∷ d3 ∷ rest)
      h =
    (refl, refl)
swap_shape _ h = absurd (omega arith)

swap-HasHeader : (f : List ℕ) → HasHeader f 14 → HasHeader (swap_ip (swap_mac f) 14) 14
unfolding ip_header_len
swap-HasHeader f w =
    let five = w.five_words in
    let inside = w.inside in
    let (len, first) = swap_shape f (omega arith) in
    record {
      bytes = All-swap f 14 w.bytes;
      five_words = rw first five;
      at_most = rw first w.at_most;
      inside = rw (first, len) inside;
    }

module _ (forward : Forward) (replies : Replies) (p : Padding) (blank : PacketMeta)
    (now now' : ℕ) where
  -- An echo reply in a frame that holds the whole IP header goes back where the request came from: both
  -- pairs of addresses are exchanged, and the header's checksum is right.
  pub echo_reply-Swapped :
      (b : Balancer) (frame : List ℕ)
      → HasHeader frame 14
      → (b' : Balancer) × (echo_reply forward replies p blank now now' b frame 14 ≡ some (b', true))
        × Swapped frame b'.frame
        × (calculate (header_of b'.frame 14) ≡ some 0)
  unfolding echo_reply
  echo_reply-Swapped b frame w =
      let five = w.five_words in
      let inside = w.inside in
      let f1 = swap_ip (swap_mac frame) 14 in
      let (c, e, z) = update-calculate f1 14 (swap-HasHeader frame w) in
      (
        record (count_tx b) { frame = with_checksum f1 14 c },
        rw (echo_reply, e) refl,
        swap_lem frame c (omega arith) w.bytes,
        z,
      )
