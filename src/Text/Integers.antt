-- ===== src/Text/Integers.antt =====
-- Reading numbers back by `std::stoi`.
use l7_loadbalancer.Base.{ℕ, ◌+◌, ◌^◌, ◌<◌, ◌≡◌, sym, ◌∙◌, List, [], ◌∷◌, some, arith}
use mathlib.Core.List.{append-nil}
use l7_loadbalancer.Text.{to_string, skip_space, decimal_value, scan_digits}
use l7_loadbalancer.Text.Numbers.{to_string-digits}
use l7_loadbalancer.Text.Strings.{stoi, positive, pos}

decimal_digit : (d : ℕ) → d < 10 → decimal_value (b'0' + d) ≡ some d
decimal_digit d h = ground arith

stoi_digit :
    (d : ℕ) (s : List ℕ)
    → d < 10
    → stoi ((b'0' + d) ∷ s) ≡ positive (some (scan_digits decimal_value 10 d s).0)
unfolding stoi skip_space
stoi_digit d s h = ground (arith, decimal_digit d h)

-- `std::stoi` reads back every printed number of an `int`.
pub stoi-to_string : (n : ℕ) → n < 2 ^ 31 → stoi (to_string n) ≡ some (pos n)
stoi-to_string n h =
    let (d, s, hd, e, v) = to_string-digits n [] tt in
    rw
      (
        let same : to_string n ≡ (b'0' + d) ∷ s = sym (append-nil (to_string n)) ∙ e in same,
        stoi_digit d s hd,
        v,
      )
      (ground arith)
