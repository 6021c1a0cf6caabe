-- ===== src/Ids/Tests.antt =====
-- Runs of the id generator, and the theorems at them.
use beacn.Base.{◌^◌, ◌-◌, ◌≡◌, refl, true, List, [], ◌∷◌, arith, str_ltb, Pairwise}
use beacn.Ids.{Reading, start, encode_from, new_ids, tick, new_id}
use beacn.Ids.Order.{new_ids-Pairwise}

-- The second call meets the same millisecond with a full random field, the third a clock that went
-- back.
abbrev readings : List Reading
readings =
    record { ms = 1700000000000; entropy = 2 ^ 80 - 1 }
    ∷ record { ms = 1700000000000; entropy = 7 }
    ∷ record { ms = 5; entropy = 0 }
    ∷ []

ids_run :
    new_ids "evt" start readings
    ≡ "evt_01HF7YAT00ZZZZZZZZZZZZZZZZ" ∷ "evt_01HF7YAT010000000000000007"
      ∷ "evt_01HF7YAT010000000000000008" ∷ []
unfolding new_ids new_id tick encode_from
ids_run = refl

new_ids-Pairwise_example : Pairwise (λ i j. str_ltb i j ≡ true) (new_ids "evt" start readings)
new_ids-Pairwise_example = new_ids-Pairwise "evt" start readings (omega arith) (omega arith)
