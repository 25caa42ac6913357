-- ===== src/Wire/Requests/Correlation.antt =====
-- Every reply reaches the caller whose request it answers, and no caller gets two.
use iscp_go.Prelude.{
  ℕ, suc, ◌*◌, ◌<◌, ◌≡◌, ◌≢◌, refl, sym, ap, subst, ◌∙◌, inl, inr, List, [], ◌∷◌, Option, none,
  some, arith, nat_eq, lookup, insert_cases, erase_cases,
}
use iscp_go.Ids.{next_id, u32}
use iscp_go.Wire.Requests.{
  Requests, new_requests, send_request, reply_to, read_request, Event, sends, reply, happens, run,
}

-- The identifier of the request of a caller.
abbrev pub id_of : ℕ → ℕ
id_of caller = u32 (2 * caller)

abbrev pub AllCorrelated : List (ℕ × ℕ) → Type 0
AllCorrelated [] = Unit {0}
AllCorrelated ((caller, id) ∷ ds) = (id ≡ id_of caller) × AllCorrelated ds

abbrev pub NotServed : ℕ → List (ℕ × ℕ) → Type 0
NotServed caller [] = Unit {0}
NotServed caller ((c, id) ∷ ds) = (c ≢ caller) × NotServed caller ds

abbrev pub AllOnce : List (ℕ × ℕ) → Type 0
AllOnce [] = Unit {0}
AllOnce ((caller, id) ∷ ds) = NotServed caller ds × AllOnce ds

abbrev pub AllBefore : ℕ → List (ℕ × ℕ) → Type 0
AllBefore n [] = Unit {0}
AllBefore n ((caller, id) ∷ ds) = (caller < n) × AllBefore n ds

pub record Inv (r : Requests) : Type 0 where
  pub counts : r.id_generator.current_value ≡ u32 (2 * r.calls)
  pub entries :
      (id caller : ℕ)
      → lookup id r.reply_ch ≡ some caller
      → (id ≡ id_of caller) × (caller < r.calls) × NotServed caller r.delivered
  pub correlated : AllCorrelated r.delivered
  pub once : AllOnce r.delivered
  pub before : AllBefore r.calls r.delivered

not_served : (n : ℕ) (ds : List (ℕ × ℕ)) → AllBefore n ds → NotServed n ds
not_served n [] h = tt
not_served n ((c, id) ∷ ds) h = (omega arith, not_served n ds h.1)

before_suc : (n : ℕ) (ds : List (ℕ × ℕ)) → AllBefore n ds → AllBefore (suc n) ds
before_suc n [] h = tt
before_suc n ((c, id) ∷ ds) h = (omega arith, before_suc n ds h.1)

pub send-Inv : (r : Requests) → Inv r → Inv (send_request r)
unfolding send_request next_id
send-Inv r v = record {
  counts = omega (arith, v.counts);
  entries = λ id caller q. elim (insert_cases _ id r.calls caller r.reply_ch q) [
    | inl (same, k) ↦ (
      sym same ∙ omega (arith, v.counts, k),
      omega arith,
      subst (λ c. NotServed c r.delivered) k (not_served r.calls r.delivered v.before),
    )
    | inr (other, old) ↦
        let (same, below, fresh) = v.entries id caller old in (same, omega arith, fresh)
  ];
  correlated = v.correlated;
  once = v.once;
  before = before_suc r.calls r.delivered v.before;
}

reply-Inv :
    (o : Option ℕ) (r : Requests) (id : ℕ)
    → lookup id r.reply_ch ≡ o
    → Inv r
    → Inv (reply_to o r id)
unfolding reply_to
reply-Inv none r id e v = v
reply-Inv (some caller) r id e v =
    let (same, below, fresh) = v.entries id caller e in
    record {
      counts = v.counts;
      entries = λ k c q.
          let (other, old) = erase_cases id k c r.reply_ch q in
          let (same', below', fresh') = v.entries k c old in
          (same', below', (λ p. other (same ∙ ap id_of p ∙ sym same'), fresh'));
      correlated = (same, v.correlated);
      once = (fresh, v.once);
      before = (below, v.before);
    }

pub step-Inv : (r : Requests) (e : Event) → Inv r → Inv (happens r e)
unfolding read_request
step-Inv r sends v = send-Inv r v
step-Inv r (reply id) v = reply-Inv (lookup id r.reply_ch) r id refl v

pub run-Inv : (r : Requests) (es : List Event) → Inv r → Inv (run r es)
unfolding run
run-Inv r [] v = v
run-Inv r (e ∷ es) v = run-Inv (happens r e) es (step-Inv r e v)

pub new-Inv : Inv new_requests
unfolding new_requests lookup
new-Inv = record {
  counts = refl;
  entries = λ id caller q. cc;
  correlated = tt;
  once = tt;
  before = tt;
}

-- However calls and replies are interleaved, and whatever identifiers the replies have: each reply that is
-- delivered carries the identifier that its caller's request was sent with, and no caller is given two, so
-- that the one place in its channel is enough.
pub replies_correlate :
    (es : List Event)
    → AllCorrelated (run new_requests es).delivered × AllOnce (run new_requests es).delivered
replies_correlate es = let v = run-Inv new_requests es new-Inv in (v.correlated, v.once)
