-- ===== src/Conn/Streams.antt =====
-- iscp/conn.go: the streams that a connection has, with the repository of Storage. A stream is known by its
-- pointer; its identifier and its state at the time of a call are arguments.
pub mod Saving
pub mod Closing
use iscp_go.Prelude.{
  ℕ, List, [], ◌∷◌, Option, none, some, Bool, true, false, Comparable, ◌==◌, nat_eq, if◌then◌else◌,
}
use iscp_go.Storage.{
  Repository, save_upstream, remove_upstream_by_id, save_downstream, remove_downstream_by_id,
}

pub record Streams (Uuid U D : Type 0) : Type 0 where
  pub upstreams : List ℕ
  pub downstreams : List ℕ
  pub repository : Repository Uuid U D

-- The keys of a Go map of pointers.
unfoldable pub has : List ℕ → ℕ → Bool
has [] p = false
has (q ∷ qs) p = let rest = has qs p in if q == p then true else rest

unfoldable pub put : List ℕ → ℕ → List ℕ
put qs p = if has qs p then qs else p ∷ qs

unfoldable pub delete : List ℕ → ℕ → List ℕ
delete [] p = []
delete (q ∷ qs) p = let rest = delete qs p in if q == p then rest else q ∷ rest

-- A removal that fails is only logged.
unfoldable pub or_same : {A : Type 0} → A → Option A → A
or_same a none = a
or_same a (some b) = b

-- The end of a stream's goroutine, which unregisters it.
pub data Ended : Type 0 where
  upstream_ended downstream_ended : ℕ → Ended

module _ {Uuid U D : Type 0} ⦃c : Comparable Uuid⦄ (id_of : ℕ → Uuid) where
  unfoldable pub register_upstream : (ℕ → U) → Streams Uuid U D → ℕ → Streams Uuid U D
  register_upstream state_of s up = record s {
    upstreams = put s.upstreams up;
    repository = (save_upstream s.repository (id_of up) (state_of up)).0;
  }

  unfoldable pub unregister_upstream : Streams Uuid U D → ℕ → Streams Uuid U D
  unregister_upstream s up =
      if has s.upstreams up
      then record s {
        upstreams = delete s.upstreams up;
        repository = or_same s.repository (remove_upstream_by_id s.repository (id_of up));
      }
      else s

  unfoldable pub save_upstreams : (ℕ → U) → Repository Uuid U D → List ℕ → Repository Uuid U D
  save_upstreams state_of r [] = r
  save_upstreams state_of r (up ∷ ups) =
      save_upstreams state_of (save_upstream r (id_of up) (state_of up)).0 ups

  unfoldable pub save_and_clear_all_upstreams : (ℕ → U) → Streams Uuid U D → Streams Uuid U D
  save_and_clear_all_upstreams state_of s = record s {
    upstreams = [];
    repository = save_upstreams state_of s.repository s.upstreams;
  }

  unfoldable pub register_downstream : (ℕ → D) → Streams Uuid U D → ℕ → Streams Uuid U D
  register_downstream state_of s down = record s {
    downstreams = put s.downstreams down;
    repository = (save_downstream s.repository (id_of down) (state_of down)).0;
  }

  unfoldable pub unregister_downstream : Streams Uuid U D → ℕ → Streams Uuid U D
  unregister_downstream s down =
      if has s.downstreams down
      then record s {
        downstreams = delete s.downstreams down;
        repository = or_same s.repository (remove_downstream_by_id s.repository (id_of down));
      }
      else s

  unfoldable pub save_downstreams : (ℕ → D) → Repository Uuid U D → List ℕ → Repository Uuid U D
  save_downstreams state_of r [] = r
  save_downstreams state_of r (down ∷ downs) =
      save_downstreams state_of (save_downstream r (id_of down) (state_of down)).0 downs

  unfoldable pub save_and_clear_all_downstreams : (ℕ → D) → Streams Uuid U D → Streams Uuid U D
  save_and_clear_all_downstreams state_of s = record s {
    downstreams = [];
    repository = save_downstreams state_of s.repository s.downstreams;
  }

  abbrev pub unregister : Streams Uuid U D → Ended → Streams Uuid U D
  unregister s (upstream_ended up) = unregister_upstream s up
  unregister s (downstream_ended down) = unregister_downstream s down

  unfoldable pub unregister_all : Streams Uuid U D → List Ended → Streams Uuid U D
  unregister_all s [] = s
  unregister_all s (e ∷ es) = unregister_all (unregister s e) es

  -- What `close` does with the streams of a connection that is not closed yet. The exchange of the status wakes the
  -- goroutines that end the streams, so some are unregistered before the upstreams are saved (`early`),
  -- and some between that and the saving of the downstreams (`between`).
  unfoldable pub close_streams :
      (ℕ → U) → (ℕ → D) → List Ended → List Ended → Streams Uuid U D → Streams Uuid U D
  close_streams upstream_state downstream_state early between s =
      save_and_clear_all_downstreams downstream_state (
        unregister_all (save_and_clear_all_upstreams upstream_state (unregister_all s early))
          between)
