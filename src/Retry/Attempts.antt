-- ===== src/Retry/Attempts.antt =====
-- How many attempts a retry makes.
use iscp_go.Prelude.{
  ℕ, zero, suc, ◌+◌, ◌≤◌, ◌<◌, ◌≡◌, refl, ◌⊎◌, inl, inr, some, Bool, true, false, arith, ltb, ◌==◌,
  nat_eq, Bool-cases, ap, ◌∙◌,
}
use iscp_go.Retry.{Retry, retry_loop, do_with_context}

positive : (n : ℕ) → 0 < n → (n == 0) ≡ false
positive n h = ground arith

module _ (r : Retry) (cancelled f slept : ℕ → Bool) where
  -- Why the loop ends after `n` calls.
  abbrev pub Ends : ℕ → Type 0
  Ends n =
      (n ≡ r.max_attempt + 1)
      ⊎ ((cancelled n ≡ true) ⊎ ((k : ℕ) × (n ≡ suc k) × ((f k ≡ true) ⊎ (slept k ≡ true))))

  retry_loop-Ends :
      (fuel count : ℕ)
      → 0 < r.max_attempt
      → count ≤ r.max_attempt + 1
      → r.max_attempt + 2 ≤ fuel + count
      → (n : ℕ) × (retry_loop r cancelled f slept fuel count ≡ some n)
        × (n ≤ r.max_attempt + 1)
        × Ends n
  unfolding retry_loop
  retry_loop-Ends zero count p h enough = absurd (omega arith)
  retry_loop-Ends (suc fuel) count p h enough = elim (Bool-cases (cancelled count)) [
    | inl c ↦ (count, rw c refl, h, inr (inl c))
    | inr c ↦ elim (Bool-cases (ltb r.max_attempt count)) [
      | inl m ↦ (count, rw (c, positive r.max_attempt p, m) refl, h, inl (ground (arith, m)))
      | inr m ↦ elim (Bool-cases (f count)) [
        | inl e ↦ (
          suc count,
          rw (c, positive r.max_attempt p, m, e) refl,
          ground (arith, m),
          inr (inr (count, refl, inl e)),
        )
        | inr e ↦ elim (Bool-cases (slept count)) [
          | inl t ↦ (
            suc count,
            rw (c, positive r.max_attempt p, m, e, t) refl,
            ground (arith, m),
            inr (inr (count, refl, inr t)),
          )
          | inr t ↦
              rw (c, positive r.max_attempt p, m, e, t)
                (retry_loop-Ends fuel (suc count) p (ground (arith, m)) (omega arith))
        ]
      ]
    ]
  ]

  -- With a largest number of attempts that is not 0, the retry ends, after at most one call more than that
  -- number: at exactly one more, or because the context is cancelled before a call or in a pause, or
  -- because the last call asked to end.
  pub do_with_context-Ends :
      (fuel : ℕ)
      → 0 < r.max_attempt
      → r.max_attempt + 2 ≤ fuel
      → (n : ℕ) × (do_with_context r cancelled f slept fuel ≡ some n)
        × (n ≤ r.max_attempt + 1)
        × Ends n
  unfolding do_with_context
  do_with_context-Ends fuel p enough = retry_loop-Ends fuel 0 p (omega arith) (omega arith)

-- A function that never asks to end, under a context that is not cancelled, is called once more than the
-- largest number of attempts.
pub attempts_of_failure :
    (r : Retry) (fuel : ℕ)
    → 0 < r.max_attempt
    → r.max_attempt + 2 ≤ fuel
    → do_with_context r (λ k. false) (λ k. false) (λ k. false) fuel ≡ some (r.max_attempt + 1)
attempts_of_failure r fuel p enough =
    let (n, e, b, why) =
      do_with_context-Ends r (λ k. false) (λ k. false) (λ k. false) fuel p enough in
    elim why [
      | inl q ↦ e ∙ ap some q
      | inr (inl q) ↦ cc
      | inr (inr (k, q, inl t)) ↦ cc
      | inr (inr (k, q, inr t)) ↦ cc
    ]
