-- ===== src/Retry/Tests.antt =====
-- Retries with three attempts.
use iscp_go.Prelude.{ℕ, ◌+◌, ◌≤◌, ◌≡◌, some, Bool, false, arith, ◌==◌, nat_eq}
use iscp_go.Retry.{Retry, do_with_context}
use iscp_go.Retry.Attempts.{Ends, do_with_context-Ends}

abbrev three : Retry
three = record { max_attempt = 3 }

abbrev never : ℕ → Bool
never k = false

abbrev at_one : ℕ → Bool
at_one k = k == 1

do_with_context-Ends_example :
    (n : ℕ) × (do_with_context three never at_one never 9 ≡ some n)
    × (n ≤ three.max_attempt + 1)
    × Ends three never at_one never n
do_with_context-Ends_example =
    do_with_context-Ends three never at_one never 9 (omega arith) (omega arith)
