-- ===== src/Convert/Reading/Outcomes.antt =====
-- encoding/convert/proto_to_wire.go: how a reader can end, step by step.
use iscp_go.Prelude.{◌≡◌, refl, Bool, true, List, [], ◌∷◌, ◌⊎◌, inl, inr}
use iscp_go.Convert.Outcome.{Outcome, ok, malformed, invalid_data_id, panicked, ◌>>=◌, each}
use iscp_go.Convert.Errors.Sendable.{all}

-- A value with `Q`, an error, or, only with `B`, a panic.
pub data EndsIn {A : Type 0} (B : Type 0) (Q : A → Type 0) : Outcome A → Type 0 where
  got : (a : A) → Q a → EndsIn B Q (ok a)
  bad : EndsIn B Q malformed
  bad_data_id : EndsIn B Q invalid_data_id
  panics : B → EndsIn B Q panicked

-- Some entry has the property.
abbrev pub Any : {A : Type 0} → (A → Type 0) → List A → Type 0
Any C [] = ⊥
Any C (x ∷ xs) = C x ⊎ Any C xs

-- Any value will do.
abbrev pub Whatever : {A : Type 0} → A → Type 0
Whatever a = Unit {0}

pub reads-next :
    {A D : Type 0} {B : Type 0} {Q : A → Type 0} {R : D → Type 0} {x : Outcome A}
    (f : A → Outcome D)
    → EndsIn B Q x
    → ((a : A) → Q a → EndsIn B R (f a))
    → EndsIn B R (x >>= f)
reads-next f (got a q) h = h a q
reads-next f bad h = bad
reads-next f bad_data_id h = bad_data_id
reads-next f (panics b) h = panics b

pub reads-then :
    {A D : Type 0} {B : Type 0} {Q : A → Type 0} {R : D → Type 0} {x : Outcome A} (f : A → D)
    → EndsIn B Q x
    → ((a : A) → Q a → R (f a))
    → EndsIn B R (x >>= λ a. ok (f a))
reads-then f r h = reads-next (λ a. ok (f a)) r (λ a q. got (f a) (h a q))

-- A loop panics where its body panics at an entry.
pub each_reads :
    {A D : Type 0} (B : Type 0) (known : D → Bool) (f : A → Outcome D) (C : A → Type 0)
    → ((x : A) → (C x → B) → EndsIn B (λ y. known y ≡ true) (f x))
    → (l : List A) → (Any C l → B)
    → EndsIn B (λ ys. all known ys ≡ true) (each f l)
unfolding each
each_reads B known f C h [] i = got [] refl
each_reads B known f C h (x ∷ xs) i =
    reads-next _ (h x (λ c. i (inl c)))
      (λ y k. reads-then _ (each_reads B known f C h xs (λ c. i (inr c))) (λ ys ks. rw k ks))
