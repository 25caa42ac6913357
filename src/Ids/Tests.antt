-- ===== src/Ids/Tests.antt =====
-- The theorems on the counters, at concrete generators.
use iscp_go.Prelude.{ℕ, ◌%◌, ◌≡◌, ◌≢◌, some, get_elem?, arith, nat_eq}
use iscp_go.Ids.{IdGenerator, AliasGenerator, ids}
use iscp_go.Ids.Laws.{ids-distinct}

abbrev near_the_end : IdGenerator
near_the_end = record { current_value = 4294967294 }

ids-distinct_example :
    (x y : ℕ) × (get_elem? (ids 3 near_the_end) 0 ≡ some x)
    × (get_elem? (ids 3 near_the_end) 1 ≡ some y)
    × (x ≢ y)
    × (x % 2 ≡ near_the_end.current_value % 2)
    × (y % 2 ≡ near_the_end.current_value % 2)
ids-distinct_example =
    ids-distinct near_the_end 3 0 1 (omega arith) (omega arith) (omega arith) (omega arith)

abbrev last_alias : AliasGenerator
last_alias = record { current_alias = 4294967295 }
