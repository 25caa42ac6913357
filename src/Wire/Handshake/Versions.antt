-- ===== src/Wire/Handshake/Versions.antt =====
-- Which answers lead to a connection.
use iscp_go.Prelude.{
  ℕ, ◌≡◌, ◌↔◌, ◌⊎◌, ◌≢◌, not, ◌&&◌, if◌then◌else◌, false, refl, sym, ap, ◌∙◌, inl, inr, Bool, true,
  ◌==◌, ◌||◌, nat_eq, arith, String, Bool-cases, subst,
}
use Prim.Native.String.{◌++◌}
use iscp_go.Wire.Handshake.{
  Order, below, same, above, at_least, FirstRead, read_failed, connect_response, disconnect,
  other_message, ClientConn, Connected, connected, not_connected, or_default, default_ping_interval,
  default_ping_timeout, code_succeeded, code_auth_failed, is_acceptable_protocol_version,
  judge_response, after_read, connect,
}

abbrev conn_or : ClientConn → Connected → ClientConn
conn_or c (connected d) = d
conn_or c (not_connected e) = c

code_of :
    (code : ℕ) → (code == code_succeeded || code == 0) ≡ true → (code ≡ code_succeeded) ⊎ (code ≡ 0)
code_of code h = elim (Bool-cases (code == code_succeeded)) [
  | inl q ↦ inl (ground (arith, q))
  | inr q ↦ inr (ground (arith, q, h))
]

bounds :
    (valid : Bool) (low high : Order)
    → (if not valid then false else at_least low && not (at_least high)) ≡ true
    → (valid ≡ true) × (low ≢ below) × (high ≡ below)
bounds false low high h = absurd (cc)
bounds true below high h = absurd (cc)
bounds true same below h = (refl, λ q. cc, refl)
bounds true above below h = (refl, λ q. cc, refl)
bounds true same same h = absurd (cc)
bounds true above same h = absurd (cc)
bounds true same above h = absurd (cc)
bounds true above above h = absurd (cc)

within :
    (valid : Bool) (low high : Order)
    → valid ≡ true
    → low ≢ below
    → high ≡ below
    → (if not valid then false else at_least low && not (at_least high)) ≡ true
within false low high v l h = absurd (cc)
within true below high v l h = absurd (l refl)
within true same high v l h = rw h refl
within true above high v l h = rw h refl

or_default-Chosen :
    (default configured used : ℕ)
    → used ≡ or_default default configured
    → ((configured ≡ 0) × (used ≡ default)) ⊎ ((configured ≢ 0) × (used ≡ configured))
or_default-Chosen default configured used h = elim (Bool-cases (configured == 0)) [
  | inl q ↦ inl (ground (arith, q), rw q at h)
  | inr q ↦ inr (ground (arith, q), rw q at h)
]

chosen_or :
    (default configured used : ℕ)
    → ((configured ≡ 0) × (used ≡ default)) ⊎ ((configured ≢ 0) × (used ≡ configured))
    → used ≡ or_default default configured
chosen_or default configured used (inl (z, e)) = rw z e
chosen_or default configured used (inr (n, e)) = ground (arith, n, e)

module _ (is_valid : String → Bool) (compare : String → String → Order) where
  -- A response with a version that is acceptable and a code that is not an error.
  abbrev pub Accepts : FirstRead → String → Type 0
  Accepts first version =
      (code : ℕ) × (first ≡ connect_response code version)
      × ((code ≡ code_succeeded) ⊎ (code ≡ 0))
      × (is_acceptable_protocol_version is_valid compare version ≡ true)

  abbrev pub Established : ℕ → ℕ → FirstRead → ClientConn → Type 0
  Established interval timeout first c =
      Accepts first c.protocol_version × (c.ping_interval ≡ interval) × (c.ping_timeout ≡ timeout)

  judged :
      (interval timeout code : ℕ) (version : String) (c : ClientConn)
      → judge_response is_valid compare interval timeout code version ≡ connected c
      → Established interval timeout (connect_response code version) c
  unfolding judge_response
  judged interval timeout code version c h = elim (Bool-cases (code == code_auth_failed)) [
    | inl p ↦ let k = rw p at h in absurd (cc)
    | inr p ↦ elim (Bool-cases (code == code_succeeded || code == 0)) [
      | inr q ↦ let k = rw (p, q) at h in absurd (cc)
      | inl q ↦ elim (Bool-cases (is_acceptable_protocol_version is_valid compare version)) [
        | inr r ↦ let k = rw (p, q, r) at h in absurd (cc)
        | inl r ↦
            let k = rw (p, q, r) at h in
            let e = ap (λ x. conn_or c x) k in
            subst (λ d. Established interval timeout (connect_response code version) d) e
              ((code, refl, code_of code q, r), refl, refl)
      ]
    ]
  ]

  established :
      (interval timeout code : ℕ) (version : String)
      → (code ≡ code_succeeded) ⊎ (code ≡ 0)
      → is_acceptable_protocol_version is_valid compare version ≡ true
      → judge_response is_valid compare interval timeout code version
        ≡ connected (record {
          protocol_version = version;
          ping_interval = interval;
          ping_timeout = timeout;
        })
  unfolding judge_response
  established interval timeout code version (inl e) a = rw (e, a) refl
  established interval timeout code version (inr e) a = rw (e, a) refl

  back :
      (interval timeout code : ℕ) (version : String) (c : ClientConn)
      → Established interval timeout (connect_response code version) c
      → judge_response is_valid compare interval timeout code version ≡ connected c
  back interval timeout code version c ((other, e, k, a), p, q) =
      let same_code : other ≡ code = cc in
      let same_version : version ≡ c.protocol_version = cc in
      established interval timeout code version
        (elim k [ inl h ↦ inl (sym same_code ∙ h) | inr h ↦ inr (sym same_code ∙ h) ])
        (ap (is_acceptable_protocol_version is_valid compare) same_version ∙ a)
      ∙ (λ i. connected (record {
        protocol_version = same_version i;
        ping_interval = sym p i;
        ping_timeout = sym q i;
      }))

  connect_when :
      (ping_interval ping_timeout : ℕ) (written : Bool) (first : FirstRead) (c : ClientConn)
      → (connect is_valid compare ping_interval ping_timeout written first ≡ connected c) ↔ (
          (written ≡ true)
          × Established
              (or_default default_ping_interval ping_interval)
              (or_default default_ping_timeout ping_timeout)
              first
              c)
  unfolding connect after_read
  connect_when i t false first c = (λ h. absurd (cc), λ h. absurd (cc))
  connect_when i t true read_failed c = (λ h. absurd (cc), λ h. absurd (cc))
  connect_when i t true disconnect c = (λ h. absurd (cc), λ h. absurd (cc))
  connect_when i t true other_message c = (λ h. absurd (cc), λ h. absurd (cc))
  connect_when i t true (connect_response code version) c =
      (λ h. (refl, judged _ _ code version c h), λ h. back _ _ code version c h.1)

  -- What a connection needs, said in numbers: the first message read is a response with one of two codes and a
  -- version that is valid with a `v` before it, not below 2.0.0 and below 3.1.0.
  abbrev pub Answers : FirstRead → String → Type 0
  Answers first version =
      (code : ℕ) × (first ≡ connect_response code version)
      × ((code ≡ 1) ⊎ (code ≡ 0))
      × (is_valid ("v" ++ version) ≡ true)
      × (compare ("v" ++ version) "v2.0.0" ≢ below)
      × (compare ("v" ++ version) "v3.1.0" ≡ below)

  -- The duration in use is the one that was configured, or a given one where that is 0.
  abbrev pub Chosen : ℕ → ℕ → ℕ → Type 0
  Chosen default configured used =
      ((configured ≡ 0) × (used ≡ default)) ⊎ ((configured ≢ 0) × (used ≡ configured))

  acceptable_forth :
      (version : String)
      → is_acceptable_protocol_version is_valid compare version ≡ true
      → (is_valid ("v" ++ version) ≡ true)
        × (compare ("v" ++ version) "v2.0.0" ≢ below)
        × (compare ("v" ++ version) "v3.1.0" ≡ below)
  unfolding is_acceptable_protocol_version
  acceptable_forth version h =
      bounds (is_valid ("v" ++ version)) (compare ("v" ++ version) "v2.0.0")
        (compare ("v" ++ version) "v3.1.0") h

  acceptable_back :
      (version : String)
      → is_valid ("v" ++ version) ≡ true
      → compare ("v" ++ version) "v2.0.0" ≢ below
      → compare ("v" ++ version) "v3.1.0" ≡ below
      → is_acceptable_protocol_version is_valid compare version ≡ true
  unfolding is_acceptable_protocol_version
  acceptable_back version valid low high =
      within (is_valid ("v" ++ version)) (compare ("v" ++ version) "v2.0.0")
        (compare ("v" ++ version) "v3.1.0") valid low high

  -- `Connect` gives a connection exactly where the request could be written, and the first message read is a
  -- response with the code 1 (success) or 0 and a version v for which "v" ++ v is valid, not below "v2.0.0",
  -- and below "v3.1.0". The connection has that version; its ping interval and ping timeout are those
  -- configured, or 10 s and 1 s (in nanoseconds) where these are 0.
  pub connect_iff :
      (ping_interval ping_timeout : ℕ) (written : Bool) (first : FirstRead) (c : ClientConn)
      → (connect is_valid compare ping_interval ping_timeout written first ≡ connected c) ↔ (
          (written ≡ true)
          × Answers first c.protocol_version
          × Chosen 10000000000 ping_interval c.ping_interval
          × Chosen 1000000000 ping_timeout c.ping_timeout)
  connect_iff i t written first c =
      let (forth, back) = connect_when i t written first c in
      (
        λ h.
            let (w, est) = forth h in
            let ((code, e, k, a), p, q) = est in
            let (valid, low, high) = acceptable_forth c.protocol_version a in
            let answers : Answers first c.protocol_version = (code, e, k, valid, low, high) in
            (
              w,
              answers,
              or_default-Chosen default_ping_interval i c.ping_interval p,
              or_default-Chosen default_ping_timeout t c.ping_timeout q,
            ),
        λ h.
            let (w, answers, p, q) = h in
            let (code, e, k, valid, low, high) = answers in
            let accepts : Accepts first c.protocol_version =
              (code, e, k, acceptable_back c.protocol_version valid low high) in
            back (
              w,
              (
                accepts,
                chosen_or default_ping_interval i c.ping_interval p,
                chosen_or default_ping_timeout t c.ping_timeout q,
              ),
            ),
      )
