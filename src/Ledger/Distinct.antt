-- ===== src/Ledger/Distinct.antt =====
-- The accounts of the program have different ids. A version 4 uuid has its version digit at bits
-- 76 to 79, so its number is at least 2 ^ 67; it has 128 bits.
use mathlib.Core.Path.{subst}
use Prim.Native.Nat.{bit_xor}
use coinos_server.Base.{ℕ, ◌*◌, ◌^◌, ◌≤◌, ◌<◌, ◌≡◌, refl, sym, ap, ◌∙◌, arith}
use coinos_server.Ledger.Bits.{
  bit_xor-zero, bit_xor-cancel_left, bit_xor-cancel_right, bit_xor-lt, bit_xor-ge,
}
use coinos_server.Ledger.Ids.{PaymentType, balance_id, pending_id, credit_id, u128}

pub record IsUuid (n : ℕ) : Type 0 where
  pub large : 2 ^ 67 ≤ n
  pub fits : n < 2 ^ 128

u128-eq_of_lt : (n : ℕ) → n < 2 ^ 128 → u128 n ≡ n
unfolding u128
u128-eq_of_lt n h = omega arith

pub balance_id-IsUuid : {aid : ℕ} → IsUuid aid → IsUuid (u128 (balance_id aid))
unfolding balance_id u128
balance_id-IsUuid u = omega arith

pub u128-balance_id : {aid : ℕ} → IsUuid aid → u128 (balance_id aid) ≡ aid
unfolding balance_id
u128-balance_id {aid} u = u128-eq_of_lt aid u.fits

tagged : ℕ → ℕ → ℕ
tagged n k = u128 (bit_xor n (k * 2 ^ 64))

u128-tagged : (n k : ℕ) → n < 2 ^ 128 → k < 8 → tagged n k ≡ bit_xor n (k * 2 ^ 64)
unfolding tagged
u128-tagged n k p q = u128-eq_of_lt _ (bit_xor-lt 128 n (k * 2 ^ 64) p (omega arith))

tagged-IsUuid : {n k : ℕ} → IsUuid n → k < 8 → IsUuid (tagged n k)
tagged-IsUuid {n} {k} u q = record {
  large =
      omega (arith, u128-tagged n k u.fits q, bit_xor-ge 67 n (k * 2 ^ 64) u.large (omega arith));
  fits =
      omega (arith, u128-tagged n k u.fits q, bit_xor-lt 128 n (k * 2 ^ 64) u.fits (omega arith));
}

-- Tags tell the accounts of one user apart, and keep those of different users apart.
tagged-injective_tag : (n k l : ℕ) → n < 2 ^ 128 → k < 8 → l < 8 → tagged n k ≡ tagged n l → k ≡ l
tagged-injective_tag n k l h p q e = omega (
  arith,
  bit_xor-cancel_left n (k * 2 ^ 64) (l * 2 ^ 64)
      (omega (arith, u128-tagged n k h p, u128-tagged n l h q)),
)

tagged-injective : (m n k : ℕ) → m < 2 ^ 128 → n < 2 ^ 128 → k < 8 → tagged m k ≡ tagged n k → m ≡ n
tagged-injective m n k h h' p e =
    bit_xor-cancel_right m n (k * 2 ^ 64) (omega (arith, u128-tagged m k h p, u128-tagged n k h' p))

-- The five accounts that the program opens for a user.
pub data Role : Type 0 where
  balance pending credit_bitcoin credit_lightning credit_liquid : Role

abbrev pub account_of : Role → ℕ → ℕ
account_of Role.balance u = u128 (balance_id u)
account_of Role.pending u = u128 (pending_id u)
account_of Role.credit_bitcoin u = u128 (credit_id u PaymentType.bitcoin)
account_of Role.credit_lightning u = u128 (credit_id u PaymentType.lightning)
account_of Role.credit_liquid u = u128 (credit_id u PaymentType.liquid)

abbrev tag : Role → ℕ
tag Role.balance = 0
tag Role.pending = 5
tag Role.credit_bitcoin = 2
tag Role.credit_lightning = 3
tag Role.credit_liquid = 4

tag-lt : (r : Role) → tag r < 8
tag-lt r = ground arith

tag-injective : (r r' : Role) → tag r ≡ tag r' → r ≡ r'
tag-injective r r' e = ground arith

account_of-tagged : (r : Role) (u : ℕ) → account_of r u ≡ tagged u (tag r)
unfolding tagged balance_id pending_id credit_id
account_of-tagged Role.balance u = ap u128 (sym (bit_xor-zero u))
account_of-tagged Role.pending u = refl
account_of-tagged _ u = refl

-- A user's accounts differ from each other and from the house accounts, and accounts of the same
-- kind of two users differ.
pub account_ids :
    (r r' : Role) (u u' : ℕ)
    → IsUuid u
    → IsUuid u'
    → IsUuid (account_of r u)
      × (account_of r u ≡ account_of r' u → r ≡ r')
      × (account_of r u ≡ account_of r u' → u ≡ u')
account_ids r r' u u' h h' = (
  subst IsUuid (sym (account_of-tagged r u)) (tagged-IsUuid h (tag-lt r)),
  λ e. tag-injective r r' (
      tagged-injective_tag u (tag r) (tag r') h.fits (tag-lt r) (tag-lt r')
        (sym (account_of-tagged r u) ∙ e ∙ account_of-tagged r' u)),
  λ e.
      tagged-injective u u' (tag r) h.fits h'.fits (tag-lt r)
        (sym (account_of-tagged r u) ∙ e ∙ account_of-tagged r u'),
)
