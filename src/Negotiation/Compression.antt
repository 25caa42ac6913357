-- ===== src/Negotiation/Compression.antt =====
-- What the compression of accepted parameters is.
use iscp_go.Prelude.{
  ℕ, ◌≤◌, ◌<◌, ◌≡◌, ◌⊎◌, refl, sym, subst, inl, inr, Option, none, some, true, false, ◌||◌,
  string_eq, ltb, ◌==◌, nat_eq, arith, if_cases,
}
use iscp_go.Negotiation.{
  ℤ, pos, negsuc, out_of, not_positive, NegotiationParams, Validated, valid, invalid, per_message,
  context_take_over, check_window, check_level, check_compress, check_times, validate, Config,
  enabled_config, config_at, compress_config,
}

-- A level from 0 to 9.
abbrev pub LevelOk : NegotiationParams → Type 0
LevelOk q = (k : ℕ) × (q.compress_level ≡ some (pos k)) × (k ≤ 9)

abbrev pub Good : NegotiationParams → Validated → Type 0
Good p (invalid e) = Unit {0}
Good p (valid q) = LevelOk q × (q.compress ≡ p.compress)

window-Good :
    (o : Option ℤ) (p q : NegotiationParams)
    → LevelOk q
    → q.compress ≡ p.compress
    → Good p (check_window o q)
unfolding check_window
window-Good none p q l e = (l, e)
window-Good (some bits) p q l e = if_cases (Good p) (out_of 32 bits) (λ h. tt) (λ h. (l, e))

level-Good :
    (o : Option ℤ) (p : NegotiationParams) → o ≡ p.compress_level → Good p (check_level o p)
unfolding check_level
level-Good none p e = window-Good p.compress_window_bits p _ (6, refl, omega arith) refl
level-Good (some (negsuc k)) p e = tt
level-Good (some (pos k)) p e =
    if_cases (Good p) (ltb 9 k) (λ h. tt)
      (λ h. window-Good p.compress_window_bits p p (k, sym e, ground (arith, h)) refl)

times-Good : (p : NegotiationParams) (v : Validated) → Good p v → Good p (check_times v)
unfolding check_times
times-Good p (invalid e) g = tt
times-Good p (valid q) g =
    if_cases (Good p) (not_positive q.ping_interval) (λ h. tt)
      (λ h. if_cases (Good p) (not_positive q.read_timeout) (λ k. tt) (λ k. g))

compress-Good : (p : NegotiationParams) → (p.compress == "") ≡ false → Good p (check_compress p)
unfolding check_compress
compress-Good p n =
    if_cases (Good p) (p.compress == "") (λ h. absurd (cc))
      (λ h.
        if_cases (Good p) (p.compress == per_message || p.compress == context_take_over)
          (λ k. level-Good p.compress_level p refl) (λ k. tt))

validate-Good : (p : NegotiationParams) → (p.compress == "") ≡ false → Good p (validate p)
unfolding validate
validate-Good p n =
    if_cases (Good p) (p.encoding == "" || (p.encoding == "json" || p.encoding == "proto"))
      (λ h. times-Good p (check_compress p) (compress-Good p n)) (λ h. tt)

-- Compression is off, or it is on with a level from 1 to 9.
abbrev pub Bounded : Config → Type 0
Bounded c =
    (c.enable ≡ false) ⊎ ((c.enable ≡ true) × ((k : ℕ) × (c.level ≡ pos k) × (0 < k) × (k ≤ 9)))

config-Bounded :
    (q : NegotiationParams) (base : Config) (k : ℕ)
    → k ≤ 9
    → Bounded (config_at (some (pos k)) q base)
unfolding config_at enabled_config
config-Bounded q base k l =
    if_cases Bounded (k == 0) (λ h. inl refl) (λ h. inr (refl, (k, refl, ground (arith, h), l)))

-- Parameters that name a compression and that `Validate` accepts give a configuration that is off or has a level
-- from 1 to 9, whatever configuration they are applied to.
pub validate-Bounded :
    (p q : NegotiationParams) (base : Config)
    → (p.compress == "") ≡ false
    → validate p ≡ valid q
    → Bounded (compress_config q base)
unfolding compress_config
validate-Bounded p q base n e =
    let ((k, l, few), same) = subst (Good p) e (validate-Good p n) in
    subst (λ o. Bounded (config_at o q base)) (sym l) (config-Bounded q base k few)
