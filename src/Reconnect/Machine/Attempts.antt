-- ===== src/Reconnect/Machine/Attempts.antt =====
-- How the loop of attempts ends, and that it does.
use iscp_go.Prelude.{
  ℕ, zero, suc, ◌+◌, ◌≤◌, ◌<◌, ◌≡◌, refl, inl, inr, Option, none, some, Bool, true, false, arith,
  leb, Bool-cases, subst, Option-cases,
}
use iscp_go.Reconnect.Machine.{
  unlimited, at_most, Attempted, connected_to, attempts_failed, closed_meanwhile, attempts,
}

module _ (n : ℕ) (closed_before : ℕ → Bool) (connect : ℕ → Option ℕ) where
  -- All attempts from `i` to before `k` were made, and failed.
  abbrev pub FailedBetween : ℕ → ℕ → Type 0
  FailedBetween i k = (j : ℕ) → i ≤ j → j < k → (closed_before j ≡ false) × (connect j ≡ none)

  abbrev pub EndsAt : ℕ → Attempted → Type 0
  EndsAt k (connected_to t) = (k < n) × (closed_before k ≡ false) × (connect k ≡ some t)
  EndsAt k attempts_failed = k ≡ n
  EndsAt k closed_meanwhile = (k < n) × (closed_before k ≡ true)

  step_failed :
      (i k : ℕ)
      → closed_before i ≡ false
      → connect i ≡ none
      → FailedBetween (suc i) k
      → FailedBetween i k
  step_failed i k c e f j l m = elim (Bool-cases (leb (suc i) j)) [
    | inl p ↦ f j (ground (arith, p)) m
    | inr p ↦
        let q : i ≡ j = ground (arith, p) in
        subst (λ x. (closed_before x ≡ false) × (connect x ≡ none)) q (c, e)
  ]

  attempts_end :
      (fuel i : ℕ)
      → i ≤ n
      → n + 1 ≤ fuel + i
      → (a : Attempted) × (attempts (at_most n) closed_before connect fuel i ≡ some a)
        × ((k : ℕ) × FailedBetween i k × EndsAt k a)
  unfolding attempts
  attempts_end zero i l enough = absurd (omega arith)
  attempts_end (suc fuel) i l enough = elim (Bool-cases (leb n i)) [
    | inl e ↦ (attempts_failed, rw e refl, (i, λ j p q. absurd (omega arith), ground arith))
    | inr e ↦ elim (Bool-cases (closed_before i)) [
      | inl c ↦
          (closed_meanwhile, rw (e, c) refl, (i, λ j p q. absurd (omega arith), (ground arith, c)))
      | inr c ↦ elim (Option-cases (connect i)) [
        | inr (t, f) ↦ (
          connected_to t,
          rw (e, c, f) refl,
          (i, λ j p q. absurd (omega arith), (ground arith, c, f)),
        )
        | inl f ↦
            let (a, found, (k, failed, ends)) =
              attempts_end fuel (suc i) (ground arith) (omega arith) in
            (a, rw (e, c, f) found, (k, step_failed i k c f failed, ends))
      ]
    ]
  ]

  -- With a limit of `n` attempts the loop ends: with the first connection that an attempt makes, or when the
  -- context is cancelled before an attempt, each before the limit, or after exactly `n` attempts; and all
  -- attempts before that failed, with the context not cancelled.
  pub attempts-EndsAt :
      (fuel : ℕ)
      → n + 1 ≤ fuel
      → (a : Attempted) × (attempts (at_most n) closed_before connect fuel 0 ≡ some a)
        × ((k : ℕ) × FailedBetween 0 k × EndsAt k a)
  attempts-EndsAt fuel enough = attempts_end fuel 0 (omega arith) (omega arith)

module _ (closed_before : ℕ → Bool) (connect : ℕ → Option ℕ) where
  unlimited_from :
      (gap i t : ℕ)
      → ((j : ℕ) → closed_before j ≡ false)
      → connect (gap + i) ≡ some t
      → (u : ℕ) × (attempts unlimited closed_before connect (suc gap) i ≡ some (connected_to u))
  unfolding attempts
  unlimited_from zero i t c e =
      let e' : connect i ≡ some t = subst (λ x. connect x ≡ some t) (omega arith) e in
      (t, rw (c i, e') refl)
  unlimited_from (suc gap) i t c e = elim (Option-cases (connect i)) [
    | inr (u, f) ↦ (u, rw (c i, f) refl)
    | inl f ↦
        let (u, g) =
          unlimited_from gap (suc i) t c (subst (λ x. connect x ≡ some t) (omega arith) e) in
        (u, rw (c i, f) g)
  ]

  -- Without a limit, and with a context that is not cancelled, the loop connects as soon as some attempt
  -- would: if attempt `k` succeeds, `k + 1` rounds are enough.
  pub unlimited_connects :
      (k t : ℕ)
      → ((j : ℕ) → closed_before j ≡ false)
      → connect k ≡ some t
      → (u : ℕ) × (attempts unlimited closed_before connect (suc k) 0 ≡ some (connected_to u))
  unlimited_connects k t c e =
      unlimited_from k 0 t c (subst (λ x. connect x ≡ some t) (omega arith) e)
