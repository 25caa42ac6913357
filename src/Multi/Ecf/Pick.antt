-- ===== src/Multi/Ecf/Pick.antt =====
-- The two minima of the loop over the transports.
use mathlib.Core.List.{Memᴰ}
use iscp_go.Prelude.{
  ℕ, ◌≤◌, ◌<◌, ◌≡◌, refl, ap, ◌⊎◌, inl, inr, [], ◌∷◌, Bool, true, false, ◌&&◌, arith, ltb,
  if◌then◌else◌, Map, Bool-cases, string_eq,
}
use iscp_go.Multi.Transports.{TransportId}
use iscp_go.Multi.Info.{TransportInfo}
use iscp_go.Multi.MinRtt.Choice.{base_of, smoothed_of}
use iscp_go.Multi.Ecf.{Scan, visit, scan, metrics_of}

-- The identifier and the key of the first least entry that passes a test and lies below a bound.
pub pick :
    (TransportInfo → Bool)
    → (TransportInfo → ℕ)
    → TransportId
    → ℕ
    → Map TransportId TransportInfo
    → TransportId
pick test key selected bound [] = selected
pick test key selected bound ((id, info) ∷ rest) =
    let smaller = test info && ltb (key info) bound in
    pick test key (if smaller then id else selected) (if smaller then key info else bound) rest

pub fastest-scan :
    (v : Scan) (m : Map TransportId TransportInfo)
    → (scan v m).fastest ≡ pick (λ i. true) base_of v.fastest v.min_base_rtt m
unfolding scan visit pick
fastest-scan v [] = refl
fastest-scan v ((id, info) ∷ rest) = fastest-scan (visit v id info) rest

pub available-scan :
    (v : Scan) (m : Map TransportId TransportInfo)
    → (scan v m).available
      ≡ pick (λ i. i.sending_allowed) smoothed_of v.available v.available_min_rtt m
unfolding scan visit pick metrics_of
available-scan v [] = refl
available-scan v ((id, info) ∷ rest) = available-scan (visit v id info) rest

and_lt : (b : Bool) (x y : ℕ) → b && ltb x y ≡ true → (b ≡ true) × (x < y)
and_lt b x y h = ground arith

and_le : (b : Bool) (x y : ℕ) → b && ltb x y ≡ false → b ≡ true → y ≤ x
and_le b x y h k = ground arith

module _ (test : TransportInfo → Bool) (key : TransportInfo → ℕ) where
  -- An entry that passes the test, with no entry that passes it below it.
  abbrev pub NoneBelow : ℕ → Map TransportId TransportInfo → Type 0
  NoneBelow n [] = Unit {0}
  NoneBelow n ((id, info) ∷ rest) = (test info ≡ true → n ≤ key info) × NoneBelow n rest

  abbrev pub Picked : TransportId → ℕ → Map TransportId TransportInfo → TransportId → Type 0
  Picked selected bound m r =
      (r ≡ selected) × NoneBelow bound m
      ⊎ ((info : TransportInfo) × Memᴰ (r, info) m
          × (test info ≡ true)
          × (key info < bound)
          × NoneBelow (key info) m)

  NoneBelow-weaken :
      (n k : ℕ) (m : Map TransportId TransportInfo) → n ≤ k → NoneBelow k m → NoneBelow n m
  NoneBelow-weaken n k [] h b = tt
  NoneBelow-weaken n k ((id, info) ∷ rest) h b =
      (λ t. omega (arith, b.0 t), NoneBelow-weaken n k rest h b.1)

  pub pick-Picked :
      (selected : TransportId) (bound : ℕ) (m : Map TransportId TransportInfo)
      → Picked selected bound m (pick test key selected bound m)
  unfolding pick
  pick-Picked selected bound [] = inl (refl, tt)
  pick-Picked selected bound ((id, info) ∷ rest) =
      elim (Bool-cases (test info && ltb (key info) bound)) [
        | inl e ↦ rw e (elim (pick-Picked id (key info) rest) [
          | inl (f, b) ↦ inr (
            info,
            Memᴰ.head (ap {B = TransportId × TransportInfo} (λ k. (k, info)) f),
            (and_lt (test info) (key info) bound e).0,
            (and_lt (test info) (key info) bound e).1,
            ((λ _. omega arith), b),
          )
          | inr (i, m, t, l, b) ↦ inr (
            i,
            Memᴰ.tail m,
            t,
            omega (arith, (and_lt (test info) (key info) bound e).1),
            ((λ _. omega arith), b),
          )
        ])
        | inr e ↦ rw e (elim (pick-Picked selected bound rest) [
          | inl (f, b) ↦ inl (f, (and_le (test info) (key info) bound e, b))
          | inr (i, m, t, l, b) ↦ inr (
            i,
            Memᴰ.tail m,
            t,
            l,
            ((λ t'. omega (arith, and_le (test info) (key info) bound e t')), b),
          )
        ])
      ]
