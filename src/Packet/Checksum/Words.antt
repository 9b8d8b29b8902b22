-- ===== src/Packet/Checksum/Words.antt =====
-- The sum of the words of a header, without the wrap.
use l7_loadbalancer.Base.{
  ℕ, zero, suc, ◌+◌, ◌*◌, ◌^◌, ◌≤◌, ◌<◌, ◌≡◌, refl, ap, ◌∙◌, List, [], ◌∷◌, arith, length, All, set,
  take, drop, get_or, u32,
}
use l7_loadbalancer.Packet.Checksum.{sum_words, store16}

unfoldable pub words_sum : List ℕ → ℕ
words_sum [] = 0
words_sum (a ∷ []) = a
words_sum (a ∷ b ∷ rest) = a + b * 2 ^ 8 + words_sum rest

pub words_sum-le :
    (xs : List ℕ) → All (λ x. x < 256) xs → words_sum xs * 2 ≤ 65535 * (length xs + 1)
unfolding words_sum
words_sum-le [] h = omega arith
words_sum-le (a ∷ []) h = omega arith
words_sum-le (a ∷ b ∷ rest) h = omega (arith, words_sum-le rest h.1.1)

pub sum_words-eq :
    (sum : ℕ) (xs : List ℕ) → sum + words_sum xs < 2 ^ 32 → sum_words sum xs ≡ sum + words_sum xs
unfolding words_sum sum_words
sum_words-eq sum [] h = omega arith
sum_words-eq sum (a ∷ []) h = omega arith
sum_words-eq sum (a ∷ b ∷ rest) h =
    let e : u32 (sum + (a + b * 2 ^ 8)) ≡ sum + (a + b * 2 ^ 8) = omega arith in
    rw e (omega (arith, sum_words-eq (sum + (a + b * 2 ^ 8)) rest (omega arith)))

-- The word at byte 10, which holds the checksum.
abbrev pub word_10 : List ℕ → ℕ
word_10 xs = get_or xs 10 0 + get_or xs 11 0 * 2 ^ 8

pub words_sum-store16 :
    (xs : List ℕ) (v : ℕ)
    → 12 ≤ length xs
    → v < 65536
    → words_sum (store16 xs 10 v) + word_10 xs ≡ words_sum xs + v
unfolding words_sum store16
words_sum-store16 (a ∷ b ∷ c ∷ d ∷ e ∷ f ∷ g ∷ h ∷ i ∷ j ∷ k ∷ l ∷ rest) v le lt = omega arith
words_sum-store16 _ v le lt = absurd (omega arith)

pub drop-set : (off i v : ℕ) (xs : List ℕ) → drop off (set xs (off + i) v) ≡ set (drop off xs) i v
drop-set zero i v xs = ap (λ k. set xs k v) (omega arith)
drop-set (suc off) i v [] = refl
drop-set (suc off) i v (x ∷ xs) =
    ap (λ k. drop (suc off) (set (x ∷ xs) k v))
      (let e : suc off + i ≡ suc (off + i) = omega arith in e)
    ∙ drop-set off i v xs

pub take-set : (n i v : ℕ) (xs : List ℕ) → take n (set xs i v) ≡ set (take n xs) i v
take-set zero i v xs = refl
take-set (suc n) i v [] = refl
take-set (suc n) zero v (x ∷ xs) = refl
take-set (suc n) (suc i) v (x ∷ xs) = ap (λ t. x ∷ t) (take-set n i v xs)

pub length-take-drop :
    (off n : ℕ) (xs : List ℕ) → off + n ≤ length xs → length (take n (drop off xs)) ≡ n
length-take-drop zero zero xs h = refl
length-take-drop zero (suc n) [] h = absurd (omega arith)
length-take-drop zero (suc n) (x ∷ xs) h = omega (arith, length-take-drop zero n xs (omega arith))
length-take-drop (suc off) zero xs h = refl
length-take-drop (suc off) (suc n) [] h = absurd (omega arith)
length-take-drop (suc off) (suc n) (x ∷ xs) h = length-take-drop off (suc n) xs (omega arith)

pub All-take-drop :
    (off n : ℕ) (xs : List ℕ) → All (λ x. x < 256) xs → All (λ x. x < 256) (take n (drop off xs))
All-take-drop zero zero xs h = tt
All-take-drop zero (suc n) [] h = tt
All-take-drop zero (suc n) (x ∷ xs) h = (h.0, All-take-drop zero n xs h.1)
All-take-drop (suc off) zero [] h = tt
All-take-drop (suc off) (suc n) [] h = tt
All-take-drop (suc off) n (x ∷ xs) h = All-take-drop off n xs h.1

pub All-set :
    (i v : ℕ) (xs : List ℕ) → v < 256 → All (λ x. x < 256) xs → All (λ x. x < 256) (set xs i v)
All-set i v [] lt h = tt
All-set zero v (x ∷ xs) lt h = (lt, h.1)
All-set (suc i) v (x ∷ xs) lt h = (h.0, All-set i v xs lt h.1)
