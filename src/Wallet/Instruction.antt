-- ===== src/Wallet/Instruction.antt =====
-- lib/nwc.ts, `parseInstruction`: the lightning instruction in a payment string. Texts are lists of
-- ASCII codes; `URLSearchParams` is a parameter.
pub mod First
use coinos_server.Base.{
  ℕ, ◌+◌, Bool, true, false, not, ◌&&◌, ◌||◌, Option, none, some, List, [], ◌∷◌, ltb, leb, ◌==◌,
  if◌then◌else◌, map, length, drop,
}
use coinos_server.Blocks.Frames.{codes, same}

abbrev pub Text : Type 0
Text = List ℕ

abbrev pub is_space : ℕ → Bool
is_space c = c == 32 || (leb 9 c && leb c 13)

unfoldable pub remove_spaces : Text → Text
remove_spaces [] = []
remove_spaces (c ∷ cs) = let rest = remove_spaces cs in if is_space c then rest else c ∷ rest

unfoldable pub to_lower : ℕ → ℕ
to_lower c = if leb b'A' c && leb c b'Z' then c + 32 else c

unfoldable pub lower : Text → Text
unfolding to_lower
lower s = map to_lower s

abbrev pub starts_with : Text → Text → Bool
starts_with [] s = true
starts_with (p ∷ ps) [] = false
starts_with (p ∷ ps) (c ∷ cs) = p == c && starts_with ps cs

-- What follows the first `?`, `none` if there is none.
unfoldable pub after_query : Text → Option Text
after_query [] = none
after_query (c ∷ cs) = let rest = after_query cs in if c == b'?' then some cs else rest

pub data Parsed : Type 0 where
  instruction : Text → Parsed
  no_instruction : Parsed
  unsupported : Text → Parsed

-- `a ||= v` and `a || b`: the empty text is false, as `undefined` is.
abbrev pub or_else : Text → Text → Text
or_else [] v = v
or_else (c ∷ cs) v = c ∷ cs

abbrev pub checked : Text → Parsed
checked [] = no_instruction
checked (c ∷ cs) =
    let s = lower (c ∷ cs) in if starts_with (codes "ln") s then instruction s else no_instruction

abbrev pub is_required : Text → Bool
is_required key = starts_with (codes "req-") key

-- The loop over the parameters.
unfoldable pub scan : List (Text × Text) → Text → Text → Parsed
scan [] lno bolt11 = checked (or_else lno bolt11)
scan ((k, v) ∷ rest) lno bolt11 =
    let key = lower k in
    if is_required key
    then unsupported key
    else scan rest (if same key (codes "lno") then or_else lno v else lno) (
        if not (same key (codes "lno")) && same key (codes "lightning")
        then or_else bolt11 v
        else bolt11)

abbrev query : (Text → List (Text × Text)) → Option Text → Parsed
query search_params none = no_instruction
query search_params (some q) = scan (search_params q) [] []

-- `none` is a payment that is no string.
unfoldable pub parse_instruction : (Text → List (Text × Text)) → Option Text → Parsed
unfolding scan remove_spaces after_query lower
parse_instruction search_params none = no_instruction
parse_instruction search_params (some payment) =
    let s = remove_spaces payment in
    if starts_with (codes "lightning:") (lower s)
    then checked (drop 10 s)
    else if starts_with (codes "bitcoin:") (lower s)
    then query search_params (after_query s)
    else checked s
