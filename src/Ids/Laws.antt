-- ===== src/Ids/Laws.antt =====
-- Identifiers do not repeat, and an alias is never 0.
use iscp_go.Prelude.{
  ℕ, zero, suc, ◌+◌, ◌*◌, ◌%◌, ◌<◌, ◌≤◌, ◌≡◌, ◌≢◌, ap, ◌∙◌, inl, inr, some, ◌==◌, nat_eq, arith,
  if◌then◌else◌, get_elem?, Bool-cases,
}
use iscp_go.Ids.{IdGenerator, AliasGenerator, u32, next_id, next_alias, ids}

id_at :
    (g : IdGenerator) (n i : ℕ)
    → g.current_value < 4294967296
    → i < n
    → get_elem? (ids n g) i ≡ some (u32 (g.current_value + 2 * i))
unfolding ids
id_at g zero i h l = elim l [ ]
id_at g (suc n) zero h l = ap some (omega arith)
id_at g (suc n) (suc i) h l =
    id_at (next_id g).0 n i (unfold next_id in omega arith) (omega arith)
    ∙ ap some (unfold next_id in omega arith)

-- Of consecutive request identifiers, no two within 2147483648 calls are equal, and all keep the parity
-- of the first: the generator of a client, which starts at 0, gives even numbers only.
pub ids-distinct :
    (g : IdGenerator) (n i j : ℕ)
    → g.current_value < 4294967296
    → i < j
    → j < n
    → n ≤ 2147483648
    → (x y : ℕ) × (get_elem? (ids n g) i ≡ some x)
      × (get_elem? (ids n g) j ≡ some y)
      × (x ≢ y)
      × (x % 2 ≡ g.current_value % 2)
      × (y % 2 ≡ g.current_value % 2)
ids-distinct g n i j h lt below few = (
  u32 (g.current_value + 2 * i),
  u32 (g.current_value + 2 * j),
  id_at g n i h (omega arith),
  id_at g n j h below,
  omega arith,
  omega arith,
  omega arith,
)

-- The loop of `AliasGenerator.Next` ends within two rounds, the alias that it gives is not 0, fits in 32
-- bits and is the generator's new value, and it is the old value plus 1, or 1 where that would be 0.
pub next_alias_total :
    (g : AliasGenerator) (fuel : ℕ)
    → g.current_alias < 4294967296
    → (a : ℕ) × (next_alias (suc (suc fuel)) g ≡ some (record g { current_alias = a }, a))
      × (0 < a)
      × (a < 4294967296)
      × (a ≡ (if g.current_alias == 4294967295 then 1 else g.current_alias + 1))
unfolding next_alias
next_alias_total g fuel h = elim (Bool-cases (g.current_alias == 4294967295)) [
  | inl e ↦ (1, ground arith, omega arith, omega arith, rw e)
  | inr e ↦ (g.current_alias + 1, ground arith, omega arith, ground arith, rw e)
]
