-- ===== src/Convert/Outcome.antt =====
-- encoding/convert: what a conversion ends with, and its loops. An error is told apart by what
-- `errors.Is` sees through the wrapping of `errorConvertToProto` and `errorConvertToWire`, which
-- keeps the cause.
use iscp_go.Prelude.{List, [], ◌∷◌}

-- `malformed` wraps `errors.ErrMalformedMessage`, `invalid_data_id` is the error of
-- `toDataIDOrAlias`, which wraps nothing, and `panicked` is a call of `uuid.Must` with an error.
pub data Outcome {ℓ} (A : Type ℓ) : Type ℓ where
  ok : A → Outcome A
  malformed invalid_data_id panicked : Outcome A

-- An error ends the chain as it is.
infixl 5 ◌>>=◌
abbrev pub ◌>>=◌ {a b} : {D : Type a} {R : Type b} → Outcome D → (D → Outcome R) → Outcome R
panicked >>= next = panicked
invalid_data_id >>= next = invalid_data_id
malformed >>= next = malformed
ok value >>= next = next value

-- A loop that appends what the body gives and returns at the first error.
unfoldable pub each {ℓ κ} : {A : Type ℓ} {B : Type κ} → (A → Outcome B) → List A → Outcome (List B)
each f [] = ok []
each f (x ∷ xs) = do y ← f x; ys ← each f xs; ok (y ∷ ys)
