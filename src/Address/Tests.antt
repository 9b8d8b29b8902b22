-- ===== src/Address/Tests.antt =====
-- Addresses at concrete values.
use l7_loadbalancer.Base.{◌≡◌, refl, [], ◌∷◌}
use l7_loadbalancer.Text.{to_string, digits_from}
use l7_loadbalancer.Address.{ip_to_string}

-- The text of an address.
printed : ip_to_string 0x0100000a ≡ b'1' ∷ b'0' ∷ b'.' ∷ b'0' ∷ b'.' ∷ b'0' ∷ b'.' ∷ b'1' ∷ []
unfolding ip_to_string to_string digits_from
printed = refl
