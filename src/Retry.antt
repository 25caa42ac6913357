-- ===== src/Retry.antt =====
-- internal/retry/retry.go: the loop of `DoWithContext`. What the function that is retried returns and when the
-- context is cancelled are arguments, by the number of the attempt. The pause between attempts, a floating
-- point number with a random factor, is left out.
pub mod Attempts
mod Tests
use iscp_go.Prelude.{
  ℕ, zero, suc, ◌+◌, Option, none, some, Bool, true, false, ◌&&◌, not, ltb, ◌==◌, nat_eq,
  if◌then◌else◌,
}

pub record Retry : Type 0 where
  pub max_attempt : ℕ

module _ (r : Retry) (cancelled f slept : ℕ → Bool) where
  -- The loop, with fuel: the number of calls of `f` when it returns. `cancelled` is the look at the context
  -- before a call, `slept` the end of the pause by the context after it.
  unfoldable pub retry_loop : ℕ → ℕ → Option ℕ
  retry_loop zero retry_count = none
  retry_loop (suc fuel) retry_count =
      let again = retry_loop fuel (suc retry_count) in
      if cancelled retry_count
      then some retry_count
      else if not (r.max_attempt == 0) && ltb r.max_attempt retry_count
      then some retry_count
      else if f retry_count
      then some (suc retry_count)
      else if slept retry_count
      then some (suc retry_count)
      else again

  unfoldable pub do_with_context : ℕ → Option ℕ
  do_with_context fuel = retry_loop fuel 0
