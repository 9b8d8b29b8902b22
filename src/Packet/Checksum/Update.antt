-- ===== src/Packet/Checksum/Update.antt =====
-- A header that `update` has written sums up, and `incremental_update` agrees with `calculate`.
use l7_loadbalancer.Base.{
  ℕ, ◌+◌, ◌-◌, ◌/◌, ◌%◌, ◌≤◌, ◌<◌, ◌≡◌, refl, ap, ◌∙◌, List, ◌∷◌, some, arith, length, All, set,
  take, drop, u16, u32, leb, true, length-set, get_or-set_ne,
}
use l7_loadbalancer.Packet.{read8, ip_header_len}
use l7_loadbalancer.Packet.Checksum.{
  sum_words, not16, calculate, slice, store16, update, incremental_update,
}
use l7_loadbalancer.Packet.Checksum.Fold.{Folds, fold_total, Folds-eq}
use l7_loadbalancer.Packet.Checksum.Words.{
  words_sum, words_sum-le, sum_words-eq, word_10, words_sum-store16, drop-set, take-set,
  length-take-drop, All-take-drop, All-set,
}

abbrev Bytes : List ℕ → Type 0
Bytes xs = All (λ x. x < 256) xs

calculate_lem :
    (h : List ℕ)
    → Bytes h
    → length h ≤ 65535
    → (r : ℕ) × (calculate h ≡ some (65535 - r)) × Folds (words_sum h) r
unfolding calculate
calculate_lem h bytes short =
    let bound = words_sum-le h bytes in
    let (r, e, f) = fold_total (words_sum h) (omega arith) in
    let s : sum_words 0 h ≡ words_sum h = sum_words-eq 0 h (omega arith) ∙ omega arith in
    let low : u16 r ≡ r = let fits = f.fits in omega arith in (r, rw (s, e, low) refl, f)

all_ones : (s s' r r' : ℕ) → Folds s r → Folds s' r' → s' ≡ s + (65535 - r) → 65535 - r' ≡ 0
all_ones s s' r r' f f' e =
    let fits = f.fits in
    let same = f.same in
    let fits' = f'.fits in
    let same' = f'.same in
    let pos : 0 < s' = ground (arith, f.from_zero) in
    let pos' : 0 < r' = ground (arith, f'.only) in omega arith

-- `calculate` on a header whose checksum field is 0, stored in that field, makes the header sum to the
-- all-ones word, which `calculate` turns into 0.
calculate-store16 :
    (h : List ℕ)
    → Bytes h
    → 12 ≤ length h
    → length h ≤ 60
    → word_10 h ≡ 0
    → (c : ℕ) × (calculate h ≡ some c) × (calculate (store16 h 10 c) ≡ some 0)
unfolding store16
calculate-store16 h bytes long short blank =
    let (r, e, f) = calculate_lem h bytes (omega arith) in
    let fits = f.fits in
    let c = 65535 - r in
    let stored = words_sum-store16 h c long (omega arith) in
    let bytes' =
      All-set 11 (c / 256 % 256) (set h 10 (c % 256)) (omega arith)
        (All-set 10 (c % 256) h (omega arith) bytes) in
    let len : length (store16 h 10 c) ≡ length h =
      length-set (set h 10 (c % 256)) 11 (c / 256 % 256) ∙ length-set h 10 (c % 256) in
    let (r', e', f') = calculate_lem (store16 h 10 c) bytes' (omega arith) in
    let full : 65535 - r' ≡ 0 =
      all_ones (words_sum h) (words_sum (store16 h 10 c)) r r' f f' (omega arith) in
    (c, e, e' ∙ ap (λ x. some x) full)

-- `incremental_update` gives, for a header in which the word `old_val` becomes `new_val`, what
-- `calculate` gives for the new header, if that does not consist of zeros only.
pub incremental_update-calculate :
    (h h' : List ℕ) (rest old_val new_val c : ℕ)
    → Bytes h
    → Bytes h'
    → length h ≤ 60
    → length h' ≤ 60
    → old_val < 65536
    → new_val < 65536
    → words_sum h ≡ rest + old_val
    → words_sum h' ≡ rest + new_val
    → 0 < rest + new_val
    → calculate h ≡ some c
    → incremental_update c old_val new_val ≡ calculate h'
unfolding incremental_update
incremental_update-calculate h h' rest old_val new_val c bytes bytes' short short' lo ln eh eh' pos
      e =
    let (r, e1, f) = calculate_lem h bytes (omega arith) in
    let (r', e', f') = calculate_lem h' bytes' (omega arith) in
    let fits = f.fits in
    let same = f.same in
    let only = f.only in
    let c_eq : c ≡ 65535 - r = cc in
    let sum = r + (65535 - old_val) + new_val in
    let back : u32 (not16 c + not16 old_val + new_val) ≡ sum = omega arith in
    let (t, et, ft) = fold_total sum (omega arith) in
    let some_carry : 0 < sum = ground (arith, only) in
    let agree : t ≡ r' =
      Folds-eq sum (words_sum h') t r' some_carry (omega arith) (omega arith) ft f' in
    let low : u16 t ≡ t = let fits = ft.fits in omega arith in rw (back, et, low, e', agree) refl

-- A frame with the whole header in it, and at least five words of header.
pub record HasHeader (frame : List ℕ) (l3 : ℕ) : Type 0 where
  pub bytes : All (λ x. x < 256) frame
  pub five_words : 20 ≤ ip_header_len frame l3
  pub at_most : ip_header_len frame l3 ≤ 60
  pub inside : l3 + ip_header_len frame l3 ≤ length frame

unfoldable pub header_of : List ℕ → ℕ → List ℕ
header_of frame l3 = take (ip_header_len frame l3) (drop l3 frame)

store16-take-drop :
    (frame : List ℕ) (l3 n v : ℕ)
    → take n (drop l3 (store16 frame (l3 + 10) v)) ≡ store16 (take n (drop l3 frame)) 10 v
unfolding store16
store16-take-drop frame l3 n v =
    let hi = v / 256 % 256 in
    let lo = v % 256 in
    ap (λ k. take n (drop l3 (set (set frame (l3 + 10) lo) k hi)))
      (let e : l3 + 10 + 1 ≡ l3 + 11 = omega arith in e)
    ∙ ap (take n) (drop-set l3 11 hi (set frame (l3 + 10) lo))
    ∙ ap (λ t. take n (set t 11 hi)) (drop-set l3 10 lo frame)
    ∙ take-set n 11 hi (set (drop l3 frame) 10 lo)
    ∙ ap (λ t. set t 11 hi) (take-set n 10 lo (drop l3 frame))

ip_header_len-store16 :
    (frame : List ℕ) (l3 v : ℕ)
    → ip_header_len (store16 frame (l3 + 10) v) l3 ≡ ip_header_len frame l3
unfolding store16 ip_header_len read8
ip_header_len-store16 frame l3 v =
    rw
      (
        get_or-set_ne (set frame (l3 + 10) (v % 256)) {i = l3 + 10 + 1} {j = l3} (v / 256 % 256) 0
            (λ e. omega arith),
        get_or-set_ne frame {i = l3 + 10} {j = l3} (v % 256) 0 (λ e. omega arith),
      )
      refl

word_10-store16 : (h : List ℕ) → 12 ≤ length h → word_10 (store16 h 10 0) ≡ 0
unfolding store16
word_10-store16 (a ∷ b ∷ c ∷ d ∷ e ∷ f ∷ g ∷ h ∷ i ∷ j ∷ k ∷ l ∷ rest) le = omega arith
word_10-store16 _ le = absurd (omega arith)

pub length-store16 : (xs : List ℕ) (i v : ℕ) → length (store16 xs i v) ≡ length xs
unfolding store16
length-store16 xs i v =
    length-set (set xs i (v % 256)) (i + 1) (v / 256 % 256) ∙ length-set xs i (v % 256)

pub All-store16 :
    (xs : List ℕ) (i v : ℕ) → All (λ x. x < 256) xs → All (λ x. x < 256) (store16 xs i v)
unfolding store16
All-store16 xs i v b =
    All-set (i + 1) (v / 256 % 256) (set xs i (v % 256)) (omega arith)
      (All-set i (v % 256) xs (omega arith) b)

-- A frame whose checksum field holds `c`, written over 0.
abbrev pub with_checksum : List ℕ → ℕ → ℕ → List ℕ
with_checksum frame l3 c = store16 (store16 frame (l3 + 10) 0) (l3 + 10) c

-- `update` stays inside a frame that holds the header, changes the two bytes of the checksum at most,
-- and gives a frame whose header has the right checksum, which is that `calculate` gives 0 for it.
pub update-calculate :
    (frame : List ℕ) (l3 : ℕ)
    → HasHeader frame l3
    → (c : ℕ) × (update frame l3 ≡ some (with_checksum frame l3 c))
      × (calculate (header_of (with_checksum frame l3 c) l3) ≡ some 0)
unfolding update slice header_of
update-calculate frame l3 w =
    let five = w.five_words in
    let most = w.at_most in
    let inside = w.inside in
    let n = ip_header_len frame l3 in
    let blank = store16 frame (l3 + 10) 0 in
    let h = take n (drop l3 frame) in
    let h0 = store16 h 10 0 in
    let cut : take n (drop l3 blank) ≡ h0 = store16-take-drop frame l3 n 0 in
    let len : length h ≡ n = length-take-drop l3 n frame inside in
    let len0 : length h0 ≡ n = length-store16 h 10 0 ∙ len in
    let bytes0 = All-store16 h 10 0 (All-take-drop l3 n frame w.bytes) in
    let (c, e, z) =
      calculate-store16 h0 bytes0 (omega arith) (omega arith) (word_10-store16 h (omega arith)) in
    let keep : ip_header_len blank l3 ≡ n = ip_header_len-store16 frame l3 0 in
    let keep' : ip_header_len (with_checksum frame l3 c) l3 ≡ n =
      ip_header_len-store16 blank l3 c ∙ keep in
    let fits : leb (l3 + n) (length blank) ≡ true =
      let lb = length-store16 frame (l3 + 10) 0 in ground arith in
    (
      c,
      rw (update, keep, slice, fits, cut, e) refl,
      rw (keep', store16-take-drop blank l3 n c, cut) z,
    )
