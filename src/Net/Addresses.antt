-- ===== src/Net/Addresses.antt =====
-- lib/safe-fetch.ts, lines 35 to 99: which addresses a request may not go to. An IPv4 address is its
-- four octets and an IPv6 address its eight groups, once its text has been read; `none` is a text
-- that `v6Groups` cannot read.
pub mod Ranges
use mathlib.Core.Option
use Prim.Native.Nat.{bit_and}
use coinos_server.Base.{
  ℕ, ◌+◌, ◌*◌, ◌/◌, ◌%◌, ◌<◌, Bool, true, false, ◌&&◌, ◌||◌, Option, none, some, leb, ◌==◌,
  if◌then◌else◌,
}

unfoldable pub blocked_v4 : ℕ → ℕ → ℕ → ℕ → Bool
blocked_v4 a b c d =
    a == 0
    || (a == 10
        || (a == 127
            || ((a == 169 && b == 254)
                || ((a == 172 && leb 16 b && leb b 31)
                    || ((a == 192 && b == 168)
                        || ((a == 100 && leb 64 b && leb b 127) || leb 224 a))))))

pub record Groups : Type 0 where
  pub g0 : ℕ
  pub g1 : ℕ
  pub g2 : ℕ
  pub g3 : ℕ
  pub g4 : ℕ
  pub g5 : ℕ
  pub g6 : ℕ
  pub g7 : ℕ

-- The address that two groups carry: `hi >> 8`, `hi & 0xff` and so on.
abbrev pub blocked_v4_of : ℕ → ℕ → Bool
blocked_v4_of hi lo = blocked_v4 (hi / 256) (hi % 256) (lo / 256) (lo % 256)

-- `zero(0, 4)` and its longer kin
abbrev zero_4 : Groups → Bool
zero_4 g = g.g0 == 0 && g.g1 == 0 && g.g2 == 0 && g.g3 == 0

abbrev zero_6 : Groups → Bool
zero_6 g = zero_4 g && g.g4 == 0 && g.g5 == 0

-- The ranges of IPv6 itself.
abbrev blocked_range : Groups → Bool
blocked_range g =
    (g.g0 == 8193 && g.g1 == 0)
    || bit_and g.g0 65_472 == 65_152
    || bit_and g.g0 65_472 == 65_216
    || bit_and g.g0 65_024 == 64_512
    || bit_and g.g0 65_280 == 65_280
    || (g.g0 == 256 && g.g1 == 0 && g.g2 == 0 && g.g3 == 0)

unfoldable pub blocked_groups : Groups → Bool
blocked_groups g =
    if zero_6 g && g.g6 == 0 && g.g7 == 0
    then true
    else if zero_6 g && g.g6 == 0 && g.g7 == 1
    then true
    else if zero_4 g && g.g4 == 0 && g.g5 == 65_535
    then blocked_v4_of g.g6 g.g7
    else if zero_4 g && g.g4 == 65_535 && g.g5 == 0
    then blocked_v4_of g.g6 g.g7
    else if zero_6 g
    then blocked_v4_of g.g6 g.g7
    else if g.g0 == 100 && g.g1 == 65_435
    then blocked_v4_of g.g6 g.g7
    else if g.g0 == 8194
    then blocked_v4_of g.g1 g.g2
    else blocked_range g

unfoldable pub blocked_v6 : Option Groups → Bool
unfolding blocked_groups
blocked_v6 none = true
blocked_v6 (some g) = blocked_groups g

pub data Ip : Type 0 where
  v4 : ℕ → ℕ → ℕ → ℕ → Ip
  v6 : Option Groups → Ip
  -- a text that is neither
  other : Ip

unfoldable pub is_blocked_ip : Ip → Bool
unfolding blocked_v4 blocked_v6
is_blocked_ip (v4 a b c d) = blocked_v4 a b c d
is_blocked_ip (v6 g) = blocked_v6 g
is_blocked_ip other = true
