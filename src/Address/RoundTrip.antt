-- ===== src/Address/RoundTrip.antt =====
-- Addresses survive printing and reading back.
use l7_loadbalancer.Base.{
  ℕ, zero, suc, ◌+◌, ◌*◌, ◌/◌, ◌%◌, ◌^◌, ◌<◌, ◌≡◌, refl, ◌∙◌, ap, List, [], ◌∷◌, ◌++◌, some, arith,
  false, Bool-cases, inl, inr, ◌==◌, u8, u32, length, All,
}
use l7_loadbalancer.Base.Bits.{bit_or_fields, bit_and_mask}
use l7_loadbalancer.Text.{to_string, scan_x, expect, skip_space, scan_digits, hex_value, is_space}
use l7_loadbalancer.Text.Numbers.{scan_u-to_string, Ends, scan_digits_end}
use l7_loadbalancer.Address.{
  Octets, scan_ip, pack_ip, ip_from_string, ip_to_string, scan_mac, mac_from_string, hex_digit,
  mac_to_string,
}

-- Four bytes pack into disjoint fields.
pack_ip-sum :
    (o : Octets)
    → o.a < 256
    → o.b < 256
    → o.c < 256
    → o.d < 256
    → pack_ip o ≡ o.d * 2 ^ 24 + o.c * 2 ^ 16 + o.b * 2 ^ 8 + o.a
unfolding pack_ip
pack_ip-sum o ha hb hc hd =
    let a = o.a in
    let b = o.b in
    let c = o.c in
    let d = o.d in
    let ed : u32 (d * 2 ^ 24) ≡ d * 2 ^ 24 = omega arith in
    let ec : u32 (c * 2 ^ 16) ≡ c * 2 ^ 16 = omega arith in
    let eb : u32 (b * 2 ^ 8) ≡ b * 2 ^ 8 = omega arith in
    let two : d * 2 ^ 24 + c * 2 ^ 16 ≡ (d * 2 ^ 8 + c) * 2 ^ 16 = omega arith in
    let three : (d * 2 ^ 8 + c) * 2 ^ 16 + b * 2 ^ 8 ≡ (d * 2 ^ 16 + c * 2 ^ 8 + b) * 2 ^ 8 =
      omega arith in
    rw
      (
        ed,
        ec,
        eb,
        bit_or_fields 24 d (c * 2 ^ 16) (omega arith),
        two,
        bit_or_fields 16 (d * 2 ^ 8 + c) (b * 2 ^ 8) (omega arith),
        three,
        bit_or_fields 8 (d * 2 ^ 16 + c * 2 ^ 8 + b) a (omega arith),
      )
      (omega arith)

abbrev octets : ℕ → Octets
octets ip = record {
  a = ip % 2 ^ 8;
  b = ip / 2 ^ 8 % 2 ^ 8;
  c = ip / 2 ^ 16 % 2 ^ 8;
  d = ip / 2 ^ 24 % 2 ^ 8;
}

scan_dotted :
    (a b c d : ℕ)
    → a < 256
    → b < 256
    → c < 256
    → d < 256
    → scan_ip (
        to_string a
        ++ (b'.' ∷ (to_string b ++ (b'.' ∷ (to_string c ++ (b'.' ∷ (to_string d ++ [])))))))
      ≡ some (record { a = a; b = b; c = c; d = d })
unfolding scan_ip expect
scan_dotted a b c d ha hb hc hd =
    let C = to_string c ++ (b'.' ∷ (to_string d ++ [])) in
    let B = to_string b ++ (b'.' ∷ C) in
    rw
      (
        scan_u-to_string a (b'.' ∷ B) (omega arith) refl,
        scan_u-to_string b (b'.' ∷ C) (omega arith) refl,
        scan_u-to_string c (b'.' ∷ (to_string d ++ [])) (omega arith) refl,
        scan_u-to_string d [] (omega arith) tt,
      )
      refl

-- `ip_from_string` reads back every address that `ip_to_string` prints.
pub ip_from_string-ip_to_string : (ip : ℕ) → ip < 2 ^ 32 → ip_from_string (ip_to_string ip) ≡ ip
unfolding ip_from_string ip_to_string
ip_from_string-ip_to_string ip h =
    rw
      (
        bit_and_mask 8 ip,
        bit_and_mask 8 (ip / 2 ^ 8),
        bit_and_mask 8 (ip / 2 ^ 16),
        bit_and_mask 8 (ip / 2 ^ 24),
        scan_dotted (ip % 2 ^ 8) (ip / 2 ^ 8 % 2 ^ 8) (ip / 2 ^ 16 % 2 ^ 8) (ip / 2 ^ 24 % 2 ^ 8)
            (omega arith) (omega arith) (omega arith) (omega arith),
        ip_from_string,
        pack_ip-sum (octets ip) (omega arith) (omega arith) (omega arith) (omega arith),
      )
      (omega arith)

hex_value-hex_digit : (n : ℕ) → n < 16 → hex_value (hex_digit n) ≡ some n
hex_value-hex_digit n h = ground arith

-- What a hexadecimal digit is not: white space, a sign, or the `x` of a prefix.
hex_plain :
    (c p : ℕ)
    → hex_value c ≡ some p
    → (is_space c ≡ false)
      × ((c == b'-') ≡ false)
      × ((c == b'+') ≡ false)
      × ((c == b'x') ≡ false)
      × ((c == b'X') ≡ false)
hex_plain c p e = ground arith

scan_two :
    (c1 c2 p q : ℕ) (rest : List ℕ)
    → hex_value c1 ≡ some p
    → hex_value c2 ≡ some q
    → Ends hex_value rest
    → scan_digits hex_value 16 p (c2 ∷ rest) ≡ (p * 16 + q, rest)
unfolding scan_digits
scan_two c1 c2 p q rest e1 e2 ends =
    rw (e2, scan_digits) (scan_digits_end hex_value 16 (p * 16 + q) rest ends)

scan_x-two :
    (c1 c2 p q : ℕ) (rest : List ℕ)
    → hex_value c1 ≡ some p
    → hex_value c2 ≡ some q
    → Ends hex_value rest
    → scan_x (c1 ∷ c2 ∷ rest) ≡ some (u32 (p * 16 + q), rest)
unfolding scan_x skip_space
scan_x-two c1 c2 p q rest e1 e2 ends =
    let (s1, m1, p1, x1, y1) = hex_plain c1 p e1 in
    let (s2, m2, p2, x2, y2) = hex_plain c2 q e2 in
    elim (Bool-cases (c1 == b'0')) [
      | inl zero_first ↦
          rw (s1, m1, p1, x2, y2, zero_first, e1, scan_two c1 c2 p q rest e1 e2 ends) refl
      | inr other ↦ rw (s1, m1, p1, x2, y2, other, e1, scan_two c1 c2 p q rest e1 e2 ends) refl
    ]

-- A byte survives `%02X` and `%x`.
scan_x-byte :
    (x : ℕ) (rest : List ℕ)
    → x < 256
    → Ends hex_value rest
    → scan_x (hex_digit (x / 16) ∷ hex_digit (x % 16) ∷ rest) ≡ some (x, rest)
scan_x-byte x rest h ends =
    scan_x-two (hex_digit (x / 16)) (hex_digit (x % 16)) (x / 16) (x % 16) rest
      (hex_value-hex_digit (x / 16) (omega arith)) (hex_value-hex_digit (x % 16) (omega arith)) ends
    ∙ ap (λ k. some (k, rest)) (omega arith)

scan_mac-mac_to_string :
    (n : ℕ) (m : List ℕ)
    → length m ≡ n
    → All (λ x. x < 256) m
    → scan_mac n (mac_to_string m) ≡ some m
unfolding scan_mac mac_to_string expect
scan_mac-mac_to_string zero [] e b = refl
scan_mac-mac_to_string zero (x ∷ m) e b = absurd (omega arith)
scan_mac-mac_to_string (suc n) [] e b = absurd (omega arith)
scan_mac-mac_to_string (suc zero) (x ∷ []) e b =
    let small : u8 x ≡ x = omega arith in rw (scan_x-byte x [] b.0 tt, small) refl
scan_mac-mac_to_string (suc zero) (x ∷ y ∷ m) e b = absurd (omega arith)
scan_mac-mac_to_string (suc (suc n)) (x ∷ []) e b = absurd (omega arith)
scan_mac-mac_to_string (suc (suc n)) (x ∷ y ∷ m) e b =
    let small : u8 x ≡ x = omega arith in
    rw
      (
        scan_x-byte x (b':' ∷ mac_to_string (y ∷ m)) b.0 refl,
        scan_mac-mac_to_string (suc n) (y ∷ m) (omega arith) b.1,
        small,
      )
      refl

-- `mac_from_string` reads back every address that `mac_to_string` prints.
pub mac_from_string-mac_to_string :
    (m : List ℕ) → length m ≡ 6 → All (λ x. x < 256) m → mac_from_string (mac_to_string m) ≡ m
unfolding mac_from_string
mac_from_string-mac_to_string m e b = rw (scan_mac-mac_to_string 6 m e b, mac_from_string) refl
