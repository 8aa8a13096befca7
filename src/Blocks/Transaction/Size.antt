-- ===== src/Blocks/Transaction/Size.antt =====
-- The length that `rawTxSize` in lib/zmq.ts computes, for transactions in Bitcoin's format.
use coinos_server.Base.{
  ℕ, ◌+◌, ◌<◌, ◌^◌, ◌≡◌, refl, ap, ◌∙◌, Bool, true, false, Option, none, some, List, [], ◌∷◌, ◌++◌,
  if◌then◌else◌, arith, length, length-append, append_assoc, drop, drop-part, drop-add, get_elem?,
  get_elem?-drop,
}
use coinos_server.Blocks.VarInt.{compact_size, read-compact_size}
use coinos_server.Blocks.Transaction.{
  repeat, skip_input, skip_output, skip_item, skip_witness, skip_witnesses, skip_body, is_zero,
  is_segwit, raw_tx_size,
}
use coinos_server.Blocks.Transaction.Format.{
  Input, Output, Tx, encode_bytes, encode_all, encode_input, encode_output, encode_stack,
  encode_witness, encode_body, encode_tx, marker,
}

abbrev pub All {ℓ} : {A : Type ℓ} → (A → Type 0) → List A → Type 0
All P [] = Unit {0}
All P (x ∷ xs) = P x × All P xs

-- A length that a compact size can hold.
abbrev pub Fits {ℓ} : {A : Type ℓ} → List A → Type 0
Fits xs = length xs < 2 ^ 64

abbrev pub IsInput : Input → Type 0
IsInput i = (length i.outpoint ≡ 36) × Fits i.script × (length i.sequence ≡ 4)

abbrev pub IsOutput : Output → Type 0
IsOutput o = (length o.value ≡ 8) × Fits o.script

abbrev pub IsStack : List (List ℕ) → Type 0
IsStack items = Fits items × All Fits items

-- The witness has one stack for each input.
abbrev pub WitnessFits : ℕ → Option (List (List (List ℕ))) → Type 0
WitnessFits n none = Unit {0}
WitnessFits n (some stacks) = (length stacks ≡ n) × All IsStack stacks

abbrev pub has_witness : Option (List (List (List ℕ))) → Bool
has_witness none = false
has_witness (some _) = true

-- A transaction in Bitcoin's format. One with no input and no witness would be read as one with a
-- witness, so it has an input.
pub record IsTx (t : Tx) : Type 0 where
  pub version : length t.version ≡ 4
  pub locktime : length t.locktime ≡ 4
  pub some_input : 0 < length t.inputs
  pub inputs_fit : Fits t.inputs
  pub inputs : All IsInput t.inputs
  pub outputs_fit : Fits t.outputs
  pub outputs : All IsOutput t.outputs
  pub witness : WitnessFits (length t.inputs) t.witness

-- A compact size above 0 does not start with 0.
compact_size-starts :
    (n : ℕ) (rest : List ℕ) → 0 < n → is_zero (get_elem? (compact_size n ++ rest) 0) ≡ false
unfolding compact_size
compact_size-starts n rest h = ground arith

module _ (buf : List ℕ) where
  -- A step skips what `encode` writes for an `x` that is in order.
  abbrev Skips {ℓ} : {A : Type ℓ} → (A → List ℕ) → (A → Type 0) → (ℕ → Option ℕ) → Type ℓ
  Skips {A = A} encode P step =
      (x : A) (o : ℕ) (rest : List ℕ)
      → P x
      → drop o buf ≡ encode x ++ rest
      → step o ≡ some (o + length (encode x))

  repeat-Skips {ℓ} :
      {A : Type ℓ} (encode : A → List ℕ) (P : A → Type 0) (step : ℕ → Option ℕ)
      → Skips encode P step
      → (xs : List A) (o : ℕ) (rest : List ℕ) → All P xs
      → drop o buf ≡ encode_all encode xs ++ rest
      → repeat (length xs) step o ≡ some (o + length (encode_all encode xs))
  unfolding repeat encode_all
  repeat-Skips encode P step skips [] o rest h e = ap some (omega arith)
  repeat-Skips encode P step skips (x ∷ xs) o rest (p, ps) e =
      let e' = e ∙ append_assoc (encode x) (encode_all encode xs) rest in
      let next = drop-part o (length (encode x)) buf (encode x) _ e' refl in
      rw (skips x o _ p e') (
        repeat-Skips encode P step skips xs (o + length (encode x)) rest ps next
        ∙ ap some (omega (arith, length-append (encode x) (encode_all encode xs))))

  skip_input-Skips : Skips encode_input IsInput (skip_input buf)
  unfolding encode_input encode_bytes skip_input
  skip_input-Skips i o rest h e =
      let size = compact_size (length i.script) in
      let e' : drop o buf ≡ i.outpoint ++ (size ++ (i.script ++ (i.sequence ++ rest))) =
        e ∙ simp append_assoc in
      let at = drop-part o 36 buf i.outpoint _ e' h.0 in
      rw (read-compact_size buf (o + 36) (length i.script) _ h.1 at) (
        ap some (
          omega (
            arith,
            h,
            length-append i.outpoint ((size ++ i.script) ++ i.sequence),
            length-append (size ++ i.script) i.sequence,
            length-append size i.script,
          )))

  skip_output-Skips : Skips encode_output IsOutput (skip_output buf)
  unfolding encode_output encode_bytes skip_output
  skip_output-Skips t o rest h e =
      let size = compact_size (length t.script) in
      let e' : drop o buf ≡ t.value ++ (size ++ (t.script ++ rest)) = e ∙ simp append_assoc in
      let at = drop-part o 8 buf t.value _ e' h.0 in
      rw (read-compact_size buf (o + 8) (length t.script) _ h.1 at) (
        ap some
          (omega (arith, h, length-append t.value (size ++ t.script), length-append size t.script)))

  skip_item-Skips : Skips encode_bytes Fits (skip_item buf)
  unfolding encode_bytes skip_item
  skip_item-Skips bs o rest h e =
      let size = compact_size (length bs) in
      let e' : drop o buf ≡ size ++ (bs ++ rest) = e ∙ simp append_assoc in
      rw (read-compact_size buf o (length bs) _ h e')
        (ap some (omega (arith, length-append size bs)))

  skip_witness-Skips : Skips encode_stack IsStack (skip_witness buf)
  unfolding encode_stack skip_witness
  skip_witness-Skips items o rest h e =
      let size = compact_size (length items) in
      let e' : drop o buf ≡ size ++ (encode_all encode_bytes items ++ rest) =
        e ∙ simp append_assoc in
      rw (read-compact_size buf o (length items) _ h.0 e') (
        repeat-Skips encode_bytes Fits (skip_item buf) skip_item-Skips items (o + length size) rest
          h.1 (drop-part o (length size) buf size _ e' refl)
        ∙ ap some (omega (arith, length-append size (encode_all encode_bytes items))))

  witness-Skips :
      (w : Option (List (List (List ℕ)))) (n o : ℕ) (rest : List ℕ)
      → WitnessFits n w
      → drop o buf ≡ encode_witness w ++ rest
      → skip_witnesses buf (has_witness w) n o ≡ some (o + length (encode_witness w))
  witness-Skips none n o rest h e = ap some (omega arith)
  witness-Skips (some stacks) n o rest h e =
      rw (← h.0) (
        repeat-Skips encode_stack IsStack (skip_witness buf) skip_witness-Skips stacks o rest h.1 e)

  body-skips :
      (t : Tx) (o : ℕ) (rest : List ℕ)
      → IsTx t
      → drop o buf ≡ encode_body t ++ rest
      → skip_body buf (has_witness t.witness) o ≡ some (o + length (encode_body t))
  unfolding skip_body encode_body
  body-skips t o rest h e =
      let vin = compact_size (length t.inputs) in
      let ins = encode_all encode_input t.inputs in
      let vout = compact_size (length t.outputs) in
      let outs = encode_all encode_output t.outputs in
      let wit = encode_witness t.witness in
      let e1 : drop o buf ≡ vin ++ (ins ++ (vout ++ (outs ++ (wit ++ (t.locktime ++ rest))))) =
        e ∙ simp append_assoc in
      let e2 = drop-part o (length vin) buf vin _ e1 refl in
      let e3 = drop-part _ (length ins) buf ins _ e2 refl in
      let e4 = drop-part _ (length vout) buf vout _ e3 refl in
      let e5 = drop-part _ (length outs) buf outs _ e4 refl in
      rw
        (
          read-compact_size buf o (length t.inputs) _ h.inputs_fit e1,
          repeat-Skips encode_input IsInput (skip_input buf) skip_input-Skips t.inputs _ _ h.inputs
              e2,
          read-compact_size buf _ (length t.outputs) _ h.outputs_fit e3,
          repeat-Skips encode_output IsOutput (skip_output buf) skip_output-Skips t.outputs _ _
              h.outputs e4,
          witness-Skips t.witness (length t.inputs) _ _ h.witness e5,
        )
        (ap some (
          omega (
            arith,
            h.locktime,
            length-append vin (ins ++ (vout ++ (outs ++ (wit ++ t.locktime)))),
            length-append ins (vout ++ (outs ++ (wit ++ t.locktime))),
            length-append vout (outs ++ (wit ++ t.locktime)),
            length-append outs (wit ++ t.locktime),
            length-append wit t.locktime,
          )))

  is_segwit-marker :
      (w : Option (List (List (List ℕ)))) (o : ℕ) (body : List ℕ)
      → drop o buf ≡ marker w ++ body
      → is_zero (get_elem? body 0) ≡ false
      → is_segwit buf o ≡ has_witness w
  is_segwit-marker none o body e first = rw (get_elem?-drop buf o, e, first) refl
  is_segwit-marker (some _) o body e first =
      rw (get_elem?-drop buf o, get_elem?-drop buf (o + 1), drop-add o 1 buf, e) refl

  after_marker :
      (w : Option (List (List (List ℕ)))) (o : ℕ)
      → (if has_witness w then o + 2 else o) ≡ o + length (marker w)
  after_marker none o = omega arith
  after_marker (some _) o = refl

  body-starts :
      (t : Tx) (rest : List ℕ) → IsTx t → is_zero (get_elem? (encode_body t ++ rest) 0) ≡ false
  unfolding encode_body
  body-starts t rest h =
      rw (append_assoc (compact_size (length t.inputs)) _ rest)
        (compact_size-starts (length t.inputs) _ h.some_input)

  -- Wherever a transaction of any number of inputs, outputs and witness items stands in a buffer,
  -- with or without a witness, its computed size is its length. It is in Bitcoin's format, with an
  -- input at least.
  pub raw_tx_size-encode :
      (t : Tx) (start : ℕ) (rest : List ℕ)
      → IsTx t
      → drop start buf ≡ encode_tx t ++ rest
      → raw_tx_size buf start ≡ some (length (encode_tx t))
  unfolding raw_tx_size encode_tx
  raw_tx_size-encode t start rest h e =
      let mark = marker t.witness in
      let body = encode_body t in
      let e1 : drop start buf ≡ t.version ++ (mark ++ (body ++ rest)) = e ∙ simp append_assoc in
      let e2 = drop-part start 4 buf t.version _ e1 h.version in
      let e3 = drop-part (start + 4) (length mark) buf mark _ e2 refl in
      rw
        (
          is_segwit-marker t.witness (start + 4) _ e2 (body-starts t rest h),
          after_marker t.witness (start + 4),
          body-skips t _ rest h e3,
        )
        (ap some (
          omega
            (arith, h.version, length-append t.version (mark ++ body), length-append mark body)))
