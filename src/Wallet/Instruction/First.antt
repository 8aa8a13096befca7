-- ===== src/Wallet/Instruction/First.antt =====
-- lib/nwc.ts: which instruction of a payment string is paid.
use coinos_server.Base.{
  ◌≡◌, refl, ap, ◌∙◌, true, false, Option, none, some, List, [], ◌∷◌, if◌then◌else◌, arith, inl,
  inr, Bool-cases,
}
use coinos_server.Blocks.Frames.{codes, same}
use coinos_server.Wallet.Instruction.{
  Text, Parsed, unsupported, lower, or_else, checked, is_required, scan,
}

-- The first value that is not empty of those that a key has, in any case.
abbrev pub first_value : Text → List (Text × Text) → Text
first_value name [] = []
first_value name ((k, v) ∷ rest) =
    let others = first_value name rest in if same (lower k) name then or_else v others else others

-- The first key that is required, `none` if there is none.
abbrev pub first_required : List (Text × Text) → Option Text
first_required [] = none
first_required ((k, v) ∷ rest) =
    let others = first_required rest in if is_required (lower k) then some (lower k) else others

abbrev pub choose : Option Text → Text → Parsed
choose (some key) s = unsupported key
choose none s = checked s

or_else_assoc : (a b c : Text) → or_else (or_else a b) c ≡ or_else a (or_else b c)
or_else_assoc [] b c = refl
or_else_assoc (x ∷ a) b c = refl

or_else-nil : (a : Text) → or_else a [] ≡ a
or_else-nil [] = refl
or_else-nil (x ∷ a) = refl

-- No key is both.
not_both : (key : Text) → same key (codes "lno") ≡ true → same key (codes "lightning") ≡ false
not_both [] h = cc
not_both (a ∷ []) h = ground arith
not_both (a ∷ (b ∷ key)) h = ground arith

-- The loop over the parameters of a URI chooses as its documentation says: a required parameter
-- rejects the URI, wherever it stands, and otherwise the first offer is taken, and the first invoice
-- if there is none.
pub scan-first :
    (ps : List (Text × Text)) (lno bolt11 : Text)
    → scan ps lno bolt11
      ≡ choose (first_required ps) (
          or_else
            (or_else lno (first_value (codes "lno") ps))
            (or_else bolt11 (first_value (codes "lightning") ps)))
unfolding scan
scan-first [] lno bolt11 = rw (or_else-nil lno, or_else-nil bolt11) refl
scan-first ((k, v) ∷ rest) lno bolt11 =
    let offer = first_value (codes "lno") rest in
    let invoice = first_value (codes "lightning") rest in
    elim (Bool-cases (is_required (lower k))) [
      | inl r ↦ rw r refl
      | inr r ↦ rw r (elim (Bool-cases (same (lower k) (codes "lno"))) [
        | inl o ↦
            rw (o, not_both (lower k) o)
              (scan-first rest (or_else lno v) bolt11
                ∙ ap
                    (λ (t : Text).
                      choose (first_required rest) (or_else t (or_else bolt11 invoice)))
                    (or_else_assoc lno v offer))
        | inr o ↦ rw o (elim (Bool-cases (same (lower k) (codes "lightning"))) [
          | inl i ↦ rw i (
              scan-first rest lno (or_else bolt11 v)
              ∙ ap (λ (t : Text). choose (first_required rest) (or_else (or_else lno offer) t))
                  (or_else_assoc bolt11 v invoice))
          | inr i ↦ rw i (scan-first rest lno bolt11)
        ])
      ])
    ]
