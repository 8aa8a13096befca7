-- ===== src/Net/Addresses/Ranges.antt =====
-- The blocked IPv4 addresses as ranges, and the IPv6 forms that carry one.
use coinos_server.Base.{
  ℕ, ◌+◌, ◌*◌, ◌/◌, ◌%◌, ◌^◌, ◌<◌, ◌≡◌, refl, sym, ◌∙◌, Bool, true, false, ◌&&◌, ◌||◌, List, [],
  ◌∷◌, leb, ◌==◌, if◌then◌else◌, arith,
}
use coinos_server.Net.Addresses.{Groups, blocked_v4, blocked_v4_of, blocked_groups}

abbrev pub number : ℕ → ℕ → ℕ → ℕ → ℕ
number a b c d = a * 2 ^ 24 + b * 2 ^ 16 + c * 2 ^ 8 + d

-- A range of IPv4 addresses: the address that it begins with, and how many it has.
pub record Range : Type 0 where
  pub first : ℕ
  pub size : ℕ

abbrev pub in_range : ℕ → Range → Bool
in_range n r = leb r.first n && leb (n + 1) (r.first + r.size)

abbrev pub in_some : ℕ → List Range → Bool
in_some n [] = false
in_some n (r ∷ rs) = in_range n r || in_some n rs

abbrev range : ℕ → ℕ → ℕ → Range
range a b bits = record { first = a * 2 ^ 24 + b * 2 ^ 16; size = 2 ^ bits }

-- 0.0.0.0/8, 10.0.0.0/8, 127.0.0.0/8, 169.254.0.0/16, 172.16.0.0/12, 192.168.0.0/16, 100.64.0.0/10,
-- 224.0.0.0/3
abbrev pub private_ranges : List Range
private_ranges =
    range 0 0 24
    ∷ range 10 0 24
    ∷ range 127 0 24
    ∷ range 169 254 16
    ∷ range 172 16 20
    ∷ range 192 168 16
    ∷ range 100 64 22
    ∷ range 224 0 29
    ∷ []

or_false : (x : Bool) → (x || false) ≡ x
or_false true = refl
or_false false = refl

module _ (a b c d : ℕ) (p : a < 256) (q : b < 256) (r : c < 256) (s : d < 256) where
  whole : (x : ℕ) → in_range (number a b c d) (range x 0 24) ≡ (a == x)
  whole x = ground arith

  link_local : in_range (number a b c d) (range 169 254 16) ≡ (a == 169 && b == 254)
  link_local = ground arith

  private_172 : in_range (number a b c d) (range 172 16 20) ≡ (a == 172 && leb 16 b && leb b 31)
  private_172 = ground arith

  private_192 : in_range (number a b c d) (range 192 168 16) ≡ (a == 192 && b == 168)
  private_192 = ground arith

  shared_100 : in_range (number a b c d) (range 100 64 22) ≡ (a == 100 && leb 64 b && leb b 127)
  shared_100 = ground arith

  high : in_range (number a b c d) (range 224 0 29) ≡ leb 224 a
  high = ground arith

  -- Octets are blocked exactly when the address lies in one of the ranges.
  pub blocked_v4-ranges : blocked_v4 a b c d ≡ in_some (number a b c d) private_ranges
  unfolding blocked_v4
  blocked_v4-ranges =
      rw
        (
          whole 0,
          whole 10,
          whole 127,
          link_local,
          private_172,
          private_192,
          shared_100,
          high,
          or_false (leb 224 a),
        )
        refl

-- The IPv4 address in two groups.
abbrev pub hi : ℕ → ℕ → ℕ
hi a b = a * 256 + b

octets :
    (a b c d : ℕ)
    → a < 256
    → b < 256
    → c < 256
    → d < 256
    → blocked_v4_of (hi a b) (hi c d) ≡ blocked_v4 a b c d
octets a b c d p q r s =
    let e1 : (a * 256 + b) / 256 ≡ a = omega arith in
    let e2 : (a * 256 + b) % 256 ≡ b = omega arith in
    let e3 : (c * 256 + d) / 256 ≡ c = omega arith in
    let e4 : (c * 256 + d) % 256 ≡ d = omega arith in rw (e1, e2, e3, e4) refl

-- The two tests before that of a compatible address stop only addresses that are blocked anyway.
compatible :
    (x y t : Bool)
    → (x ≡ true → t ≡ true)
    → (y ≡ true → t ≡ true)
    → (if x then true else if y then true else t) ≡ t
compatible true y t h k = sym (h refl)
compatible false true t h k = sym (k refl)
compatible false false t h k = refl

low-blocked : (a b c d : ℕ) → a ≡ 0 → blocked_v4 a b c d ≡ true
unfolding blocked_v4
low-blocked a b c d e = rw e refl

abbrev pub groups : ℕ → ℕ → ℕ → ℕ → ℕ → ℕ → ℕ → ℕ → Groups
groups a b c d e f g h = record { g0 = a; g1 = b; g2 = c; g3 = d; g4 = e; g5 = f; g6 = g; g7 = h }

-- Every IPv6 form that carries an IPv4 address, mapped, translated, compatible, NAT64 and 6to4, is
-- blocked exactly when that address is.
pub blocked_groups-carried :
    (a b c d : ℕ) (w x y z v : ℕ)
    → a < 256
    → b < 256
    → c < 256
    → d < 256
    → (blocked_groups (groups 0 0 0 0 0 65_535 (hi a b) (hi c d)) ≡ blocked_v4 a b c d)
      × (blocked_groups (groups 0 0 0 0 65_535 0 (hi a b) (hi c d)) ≡ blocked_v4 a b c d)
      × (blocked_groups (groups 0 0 0 0 0 0 (hi a b) (hi c d)) ≡ blocked_v4 a b c d)
      × (blocked_groups (groups 100 65_435 w x y z (hi a b) (hi c d)) ≡ blocked_v4 a b c d)
      × (blocked_groups (groups 8194 (hi a b) (hi c d) w x y z v) ≡ blocked_v4 a b c d)
unfolding blocked_groups
blocked_groups-carried a b c d w x y z v p q r s =
    let same = octets a b c d p q r s in
    (
      same,
      same,
      compatible (hi a b == 0 && hi c d == 0) (hi a b == 0 && hi c d == 1)
            (blocked_v4_of (hi a b) (hi c d)) (λ e. same ∙ low-blocked a b c d (ground arith))
            (λ e. same ∙ low-blocked a b c d (ground arith))
          ∙ same,
      same,
      same,
    )
