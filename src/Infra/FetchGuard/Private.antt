-- ===== src/Infra/FetchGuard/Private.antt =====
-- The private IPv4 addresses are those of seven networks.
use mylobsterpp.Prelude.{ℕ, ◌+◌, ◌*◌, ◌/◌, ◌^◌, ◌-◌, ◌<◌, ◌≡◌, ◌↔◌, ◌⊎◌, true, arith}
use mylobsterpp.Infra.FetchGuard.{is_private_ipv4}

abbrev pub address : (a b c d : ℕ) → ℕ
address a b c d = ((a * 256 + b) * 256 + c) * 256 + d

-- `x` lies in the network `base/len`.
abbrev pub InNetwork : (x base len : ℕ) → Type 0
InNetwork x base len = x / 2 ^ (32 - len) ≡ base / 2 ^ (32 - len)

-- The networks 10/8, 172.16/12, 192.168/16, 127/8, 169.254/16, 100.64/10 and 0.0.0/24.
abbrev pub IsPrivate : ℕ → Type 0
IsPrivate x =
    InNetwork x (address 10 0 0 0) 8
    ⊎ InNetwork x (address 172 16 0 0) 12
    ⊎ InNetwork x (address 192 168 0 0) 16
    ⊎ InNetwork x (address 127 0 0 0) 8
    ⊎ InNetwork x (address 169 254 0 0) 16
    ⊎ InNetwork x (address 100 64 0 0) 10
    ⊎ InNetwork x (address 0 0 0 0) 24

-- Four bytes are private exactly when the 32-bit address lies in one of the seven networks.
pub is_private_ipv4_iff :
    (a b c d : ℕ)
    → a < 256
    → b < 256
    → c < 256
    → d < 256
    → (is_private_ipv4 a b c d ≡ true) ↔ IsPrivate (address a b c d)
unfolding is_private_ipv4
is_private_ipv4_iff a b c d ha hb hc hd = ground arith
