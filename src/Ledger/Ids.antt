-- ===== src/Ledger/Ids.antt =====
-- lib/tb.ts, lines 12 to 67: ledgers, house accounts and the derivation of account ids.
use mathlib.Core.Option
use Prim.Native.Nat.{bit_xor}
use coinos_server.Base.{
  ℕ, ◌+◌, ◌*◌, ◌-◌, ◌%◌, ◌^◌, Option, none, some, List, [], ◌∷◌, ◌&&◌, leb, ◌==◌, if◌then◌else◌,
}

-- `PaymentType` of lib/types.ts.
pub data PaymentType : Type 0 where
  ark internal bitcoin lightning fund liquid ecash bolt12 : PaymentType

abbrev pub ledger_sats : ℕ
ledger_sats = 1

-- Microsatoshis in a satoshi.
abbrev pub msats : ℕ
msats = 1_000_000

-- `creditLedger[type]`
abbrev pub credit_ledger : PaymentType → Option ℕ
credit_ledger PaymentType.bitcoin = some 2
credit_ledger PaymentType.lightning = some 3
credit_ledger PaymentType.liquid = some 4
credit_ledger _ = none

abbrev pub house_sats : ℕ
house_sats = 1

abbrev pub house_ln : ℕ
house_ln = 3

-- `houseCreditAccount[type]`
abbrev pub house_credit_account : PaymentType → Option ℕ
house_credit_account PaymentType.bitcoin = some 2
house_credit_account PaymentType.lightning = some 3
house_credit_account PaymentType.liquid = some 4
house_credit_account _ = none

hex_digit : ℕ → Option ℕ
hex_digit c =
    if leb b'0' c && leb c b'9'
    then some (c - b'0')
    else if leb b'a' c && leb c b'f'
    then some (c - b'a' + 10)
    else if leb b'A' c && leb c b'F'
    then some (c - b'A' + 10)
    else none

hex_from : ℕ → List ℕ → Option ℕ
unfolding hex_digit
hex_from n [] = some n
hex_from n (c ∷ cs) = elim (hex_digit c) [ none ↦ none | some d ↦ hex_from (n * 16 + d) cs ]

without_dashes : List ℕ → List ℕ
without_dashes [] = []
without_dashes (c ∷ cs) = let rest = without_dashes cs in if c == b'-' then rest else c ∷ rest

-- The code points of a text. `none` is the SyntaxError that `BigInt` throws.
unfoldable pub uuid_to_big_int : List ℕ → Option ℕ
unfolding hex_from without_dashes
uuid_to_big_int uuid = elim (without_dashes uuid) [ [] ↦ none | c ∷ cs ↦ hex_from 0 (c ∷ cs) ]

-- From here on an account is named by the number of its uuid.
unfoldable pub balance_id : ℕ → ℕ
balance_id aid = aid

unfoldable pub pending_id : ℕ → ℕ
pending_id aid = bit_xor aid (5 * 2 ^ 64)

unfoldable pub credit_id : ℕ → PaymentType → ℕ
credit_id uid type = bit_xor uid (Option.get_or (credit_ledger type) 0 * 2 ^ 64)

-- `digest` is the number of the first 32 hexadecimal digits of the SHA-256 of `fund:<name>`.
unfoldable pub fund_account_id : ℕ → ℕ
fund_account_id digest = bit_xor digest (6 * 2 ^ 64)

unfoldable pub u128 : ℕ → ℕ
u128 n = n % 2 ^ 128
