-- ===== src/Blocks/Transaction.antt =====
-- lib/zmq.ts, `rawTxSize`. Skipping a part never fails, as in the code: only the reads do.
pub mod Format
pub mod Size
use coinos_server.Base.{
  ℕ, zero, suc, ◌+◌, ◌-◌, Bool, true, false, not, ◌&&◌, Option, none, some, List, ◌==◌, ◌>>=◌,
  if◌then◌else◌, get_elem?,
}
use coinos_server.Blocks.VarInt.{read_var_int}

-- `for (let i = 0; i < count; i++)` over the offset.
unfoldable pub repeat : ℕ → (ℕ → Option ℕ) → ℕ → Option ℕ
repeat zero step offset = some offset
repeat (suc n) step offset = step offset >>= repeat n step

-- `undefined` is not 0.
abbrev pub is_zero : Option ℕ → Bool
is_zero none = false
is_zero (some n) = n == 0

module _ (buf : List ℕ) where
  unfoldable pub skip_input : ℕ → Option ℕ
  skip_input offset = do
    script_len ← read_var_int buf (offset + 36)
    some (offset + 36 + script_len.size + script_len.value + 4)

  unfoldable pub skip_output : ℕ → Option ℕ
  skip_output offset = do
    script_len ← read_var_int buf (offset + 8)
    some (offset + 8 + script_len.size + script_len.value)

  unfoldable pub skip_item : ℕ → Option ℕ
  skip_item offset = do
    item_len ← read_var_int buf offset
    some (offset + item_len.size + item_len.value)

  unfoldable pub skip_witness : ℕ → Option ℕ
  skip_witness offset = do
    item_count ← read_var_int buf offset
    repeat item_count.value skip_item (offset + item_count.size)

  abbrev pub is_segwit : ℕ → Bool
  is_segwit offset = is_zero (get_elem? buf offset) && not (is_zero (get_elem? buf (offset + 1)))

  abbrev pub skip_witnesses : Bool → ℕ → ℕ → Option ℕ
  skip_witnesses segwit count offset =
      if segwit then repeat count skip_witness offset else some offset

  -- Where the transaction ends whose version ends at `offset`.
  unfoldable pub skip_body : Bool → ℕ → Option ℕ
  skip_body segwit offset = do
    vin_var ← read_var_int buf offset
    outputs ← repeat vin_var.value skip_input (offset + vin_var.size)
    vout_var ← read_var_int buf outputs
    witnesses ← repeat vout_var.value skip_output (outputs + vout_var.size)
    locktime ← skip_witnesses segwit vin_var.value witnesses
    some (locktime + 4)

  unfoldable pub raw_tx_size : ℕ → Option ℕ
  raw_tx_size start = do
    let segwit = is_segwit (start + 4)
    offset ← skip_body segwit (if segwit then start + 4 + 2 else start + 4)
    some (offset - start)
