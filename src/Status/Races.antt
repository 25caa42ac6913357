-- ===== src/Status/Races.antt =====
-- What callers that race for a status can rely on.
use iscp_go.Prelude.{
  ℕ, suc, ◌≡◌, ◌≢◌, refl, sym, subst, length, inl, inr, List, [], ◌∷◌, false, Comparable, ◌==◌,
  if◌then◌else◌, Bool-cases, beq_refl,
}
use iscp_go.Status.{compare_and_swap, compare_and_swap_not}

module _ {ℓ} {S : Type ℓ} ⦃c : Comparable S⦄ where
  -- Callers that each try to go from `old` to a status of their own: the final status, and how many of them
  -- were told that they swapped.
  unfoldable pub race : S → S → List S → S × ℕ
  race current old [] = (current, 0)
  race current old (new ∷ news) =
      let (s, swapped) = compare_and_swap current old new in
      let (s', n) = race s old news in (s', if swapped then suc n else n)

  -- Callers that each try to leave whatever is not `old`.
  unfoldable pub race_not : S → S → List S → S × ℕ
  race_not current old [] = (current, 0)
  race_not current old (new ∷ news) =
      let (s, swapped) = compare_and_swap_not current old new in
      let (s', n) = race_not s old news in (s', if swapped then suc n else n)

  abbrev pub NoneIs : S → List S → Type ℓ
  NoneIs old [] = Unit
  NoneIs old (new ∷ news) = (new ≢ old) × NoneIs old news

  abbrev pub last : S → List S → S
  last s [] = s
  last s (new ∷ news) = last new news

  differs : (a b : S) → a ≢ b → (a == b) ≡ false
  differs a b n = elim (Bool-cases (a == b)) [
    | inl e ↦ absurd (n ((c.same_iff a b).0 e))
    | inr e ↦ e
  ]

  unlike : (a b : S) → (a == b) ≡ false → a ≢ b
  unlike a b e q = let f = (c.same_iff a b).1 q in cc

  all_swap :
      (current old : S) (news : List S)
      → current ≢ old
      → NoneIs old news
      → race_not current old news ≡ (last current news, length news)
  unfolding race_not compare_and_swap_not
  all_swap current old [] n a = refl
  all_swap current old (new ∷ news) n a =
      rw (differs current old n) (rw (all_swap new old news a.0 a.1) refl)

  lost : (current old : S) (news : List S) → current ≢ old → race current old news ≡ (current, 0)
  unfolding race compare_and_swap
  lost current old [] n = refl
  lost current old (new ∷ news) n = rw (differs current old n) (rw (lost current old news n) refl)

  stays : (old : S) (news : List S) → race_not old old news ≡ (old, 0)
  unfolding race_not compare_and_swap_not
  stays old [] = refl
  stays old (new ∷ news) = rw (beq_refl old) (rw (stays old news) refl)

  -- Of callers of `CompareAndSwap` with the same old status, which is the current one, and new statuses that
  -- differ from it, the first swaps and no other does; where the current status is another one, none does.
  pub race_lem :
      (current old new : S) (news : List S)
      → NoneIs old (new ∷ news)
      → race current old (new ∷ news) ≡ (if current == old then (new, 1) else (current, 0))
  unfolding race compare_and_swap
  race_lem current old new news n = elim (Bool-cases (current == old)) [
    | inl e ↦ rw e (rw (lost new old news n.0) refl)
    | inr e ↦ rw e (rw (lost current old news (unlike current old e)) refl)
  ]

  -- Callers of `CompareAndSwapNot` that exclude one status, and go to others, never leave that status where
  -- it is the current one; where it is not, all of them swap, and the last one's status is left.
  pub race_not_lem :
      (current old : S) (news : List S)
      → NoneIs old news
      → race_not current old news
        ≡ (if current == old then (current, 0) else (last current news, length news))
  race_not_lem current old news n = elim (Bool-cases (current == old)) [
    | inl e ↦ rw e (
        subst (λ s. race_not s old news ≡ (s, 0)) (sym ((c.same_iff current old).0 e))
          (stays old news))
    | inr e ↦ rw e (all_swap current old news (unlike current old e) n)
  ]
