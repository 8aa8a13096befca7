-- ===== src/Bump/Tests.antt =====
-- Fee bumping at concrete values.
use coinos_server.Base.{
  ◌+◌, ◌*◌, ◌≤◌, ◌<◌, ◌≡◌, refl, true, false, none, some, List, [], ◌∷◌, arith,
}
use coinos_server.Ledger.Operations.{Rate}
use coinos_server.Bump.{p2a_value, ceil_mul, Out, preserved, sum}
use coinos_server.Bump.Child
use coinos_server.Bump.Child.{
  Bumped, Signed, fails, not_accepted, dust, submitted, create_cpfp_child,
}
use coinos_server.Bump.Send
use coinos_server.Bump.Send.{
  Parent, built, calculate_bump_reserve, estimated_vsize, build_cpfp_send, build_cpfp_send-pays,
}
use coinos_server.Bump.Parent.{Stuck}

abbrev ten : Rate
ten = record { num = 10; den = 1 }

abbrev outs : List Out
outs =
    record { anchor = true; value = 240; is_mine = none }
    ∷ record { anchor = false; value = 3000; is_mine = some false }
    ∷ record { anchor = false; value = 9000; is_mine = some true }
    ∷ []

abbrev bumped : Bumped
bumped = record {
  has_anchor = true;
  parent_vsize = 150;
  fee = 300;
  bump_reserve = 5000;
  old_child = outs;
}

-- A child that the node takes in a package only.
abbrev signed : Signed
signed = record {
  vsize = 190;
  txid = 4;
  allowed = some false;
  sent = none;
  submission = some (some (some 3 ∷ some 4 ∷ []));
  resubmission = none;
}

abbrev child : Child.Child
child = record { inputs = 100_240; outputs = 3000 ∷ 94_520 ∷ []; fee = 2720; txid = 4 }

child-refused :
    create_cpfp_child bumped ten (some 100_000) (record signed { submission = some none })
    ≡ fails not_accepted
unfolding create_cpfp_child submitted ceil_mul preserved
child-refused = refl

abbrev parent : Parent
parent = record {
  vsize = 150;
  fee = 300;
  bump_reserve = 5000;
  change = 50_000;
  evicted_fee = 100;
  evicted = outs;
}

abbrev sent : Send.Sent
sent = record {
  inputs = 50_240;
  outputs = 7000 ∷ 3000 ∷ 35_760 ∷ 240 ∷ [];
  fee = 3040;
  subsidy = 1200;
  bump_reserve = 1216;
}

sent-built : build_cpfp_send parent ten 5 7000 150 ≡ built sent
unfolding build_cpfp_send ceil_mul preserved calculate_bump_reserve
sent-built = refl

build_cpfp_send-pays_example :
    ((150 + estimated_vsize (7000 ∷ preserved outs)) * 10 ≤ (300 + Send.paid sent) * 1)
    × (Send.paid sent < 3040 + 1200 + dust)
    × (1200 ≤ 5000)
    × (7000 + sum (preserved outs) + p2a_value ≤ sum (7000 ∷ 3000 ∷ 35_760 ∷ 240 ∷ []))
    × (sum (7000 ∷ 3000 ∷ 35_760 ∷ 240 ∷ []) ≤ 50_240)
build_cpfp_send-pays_example =
    build_cpfp_send-pays parent ten 5 7000 150 sent (omega arith) sent-built

abbrev waiting : List Stuck
waiting =
    record { id = 1; passed_over = false; outs = outs }
    ∷ record { id = 2; passed_over = true; outs = outs }
    ∷ []
