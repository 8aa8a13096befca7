-- ===== src/Limits/Meltguard.antt =====
-- meltguard.ts: the guard between the mint and its Lightning node.
-- A request for a payment is handled in three parts, since the handler awaits twice: `gate` before
-- the invoice is decoded, `decide` after that, and `settle` after the node has answered. Requests
-- run in between each other's parts. The log is left out.
pub mod Runs
use coinos_server.Base.{ℕ, ◌+◌, ◌*◌, ◌/◌, Bool, true, false, Option, none, some, ltb, if◌then◌else◌}

pub record Config : Type 0 where
  -- MELT_MAX_SAT
  pub per : ℕ
  -- MELT_CUM_MAX_SAT
  pub cum : ℕ

-- The directory: `cumulative_sat` (`none` if missing or no number), and whether FROZEN exists.
pub record Guard : Type 0 where
  pub cum_file : Option ℕ
  pub frozen : Bool

pub data Refusal : Type 0 where
  -- 403, "FROZEN — operator review required"
  is_frozen : Refusal
  -- 400, "could not determine invoice amount"
  undecidable : Refusal
  -- 403, "per-melt cap … exceeded"
  per_melt : Refusal
  -- 403, "cumulative cap … FROZEN"
  cumulative : Refusal

-- What a request waits for: nothing any more, the decoded amount, or the node's answer to a
-- forwarded payment, with the total that was read before.
pub data Progress : Type 0 where
  refused : Refusal → Progress
  decoding : Progress
  forwarded : ℕ → ℕ → Progress

abbrev pub read_cum : Guard → ℕ
read_cum g = elim g.cum_file [ none ↦ 0 | some n ↦ n ]

abbrev pub write_cum : ℕ → Guard → Guard
write_cum n g = record g { cum_file = some n }

abbrev pub freeze : Guard → Guard
freeze g = record g { frozen = true }

-- What the node's answer to /v1/decode says, in whole satoshis, rounded up.
unfoldable pub decode_sat : Option ℕ → Option ℕ
decode_sat none = none
decode_sat (some amount_msat) = some ((amount_msat + 999) / 1000)

unfoldable pub gate : Guard → Progress
gate g = if g.frozen then refused is_frozen else decoding

unfoldable pub decide : Config → Option ℕ → Guard → Progress × Guard
decide c none g = (refused undecidable, g)
decide c (some amt) g =
    if ltb c.per amt
    then (refused per_melt, g)
    else if ltb c.cum (read_cum g + amt)
    then (refused cumulative, freeze g)
    else (forwarded (read_cum g) amt, g)

-- `ok` is whether the node reported success.
unfoldable pub settle : Bool → ℕ → ℕ → Guard → Guard
settle ok cum amt g = if ok then write_cum (cum + amt) g else g

-- What is left of a request, what it paid, and the guard.
pub record Outcome : Type 0 where
  pub progress : Progress
  pub paid : ℕ
  pub guard : Guard

abbrev pub finish : Bool → Progress × Guard → Outcome
finish ok (forwarded cum amt, g) = record {
  progress = forwarded cum amt;
  paid = if ok then amt else 0;
  guard = settle ok cum amt g;
}
finish ok (p, g) = record { progress = p; paid = 0; guard = g }

-- A whole request that nothing else runs in between of.
unfoldable pub handle : Config → Option ℕ → Bool → Guard → Outcome
unfolding gate decide decode_sat
handle c amount_msat ok g =
    if g.frozen
    then record { progress = gate g; paid = 0; guard = g }
    else finish ok (decide c (decode_sat amount_msat) g)
