-- ===== src/Ids.antt =====
-- The three counters: wire/req_id_generator.go (request identifiers), wire/stream_id_generator.go
-- (aliases) and the sequence numbers of iscp/upstream.go. `atomic.AddUint32` wraps at 2 ^ 32; a call
-- returns the new state and the value.
pub mod Laws
mod Tests
use iscp_go.Prelude.{
  ℕ, zero, suc, ◌+◌, ◌-◌, ◌%◌, List, [], ◌∷◌, Option, none, some, ◌==◌, nat_eq, if◌then◌else◌,
}

abbrev pub u32 : ℕ → ℕ
u32 n = n % 4294967296

-- IDGenerator, its `currentValue`
pub record IdGenerator : Type 0 where
  pub current_value : ℕ

unfoldable pub new_id_generator : ℕ → IdGenerator
new_id_generator initial = record { current_value = initial }

unfoldable pub new_request_id_generator_for_client : IdGenerator
new_request_id_generator_for_client = record { current_value = 0 }

-- `atomic.AddUint32(&g.currentValue, 2) - 2`
unfoldable pub next_id : IdGenerator → IdGenerator × ℕ
next_id g =
    let added = u32 (g.current_value + 2) in
    (record g { current_value = added }, u32 (added + 4294967296 - 2))

pub record AliasGenerator : Type 0 where
  pub current_alias : ℕ

unfoldable pub new_alias_generator : ℕ → AliasGenerator
new_alias_generator initial = record { current_alias = initial }

-- The loop of `AliasGenerator.Next`, with fuel; `none` means that the fuel ran out.
unfoldable pub next_alias : ℕ → AliasGenerator → Option (AliasGenerator × ℕ)
next_alias zero g = none
next_alias (suc fuel) g =
    let n = u32 (g.current_alias + 1) in
    let again = next_alias fuel (record g { current_alias = n }) in
    if n == 0 then again else some (record g { current_alias = n }, n)

pub record SequenceNumberGenerator : Type 0 where
  pub current : ℕ

unfoldable pub new_sequence_number_generator : ℕ → SequenceNumberGenerator
new_sequence_number_generator current_value = record { current = current_value }

unfoldable pub next_sequence : SequenceNumberGenerator → SequenceNumberGenerator × ℕ
next_sequence s = let n = u32 (s.current + 1) in (record s { current = n }, n)

-- The values of consecutive calls.
unfoldable pub ids : ℕ → IdGenerator → List ℕ
unfolding next_id
ids zero g = []
ids (suc n) g = let (g', id) = next_id g in id ∷ ids n g'
