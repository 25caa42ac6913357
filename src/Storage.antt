-- ===== src/Storage.antt =====
-- iscp/storage.go: the repository of streams in memory. The identifiers (a UUID, a comparable type of a
-- library) and the stored states are parameters, as the repository does not look into them.
-- `ErrStreamNotFound` is `none`; the context is not used by the code, and the pointers that it returns are
-- the values they point to.
pub mod Laws
use iscp_go.Prelude.{[], Option, none, some, Comparable, Map, lookup, insert, erase}

pub record Repository (Uuid U D : Type 0) : Type 0 where
  pub upstream : Map Uuid U
  pub downstream : Map Uuid D

module _ {Uuid : Type 0} ⦃c : Comparable Uuid⦄ {U D : Type 0} where
  unfoldable pub new_repository : Repository Uuid U D
  new_repository = record { upstream = []; downstream = [] }

  unfoldable pub save_upstream : Repository Uuid U D → Uuid → U → Repository Uuid U D × U
  save_upstream r id info = (record r { upstream = insert id info r.upstream }, info)

  unfoldable pub find_upstream_by_id : Repository Uuid U D → Uuid → Option U
  find_upstream_by_id r id = lookup id r.upstream

  unfoldable pub removed_upstream :
      Option U → Repository Uuid U D → Uuid → Option (Repository Uuid U D)
  removed_upstream none r id = none
  removed_upstream (some info) r id = some (record r { upstream = erase id r.upstream })

  unfoldable pub remove_upstream_by_id : Repository Uuid U D → Uuid → Option (Repository Uuid U D)
  unfolding removed_upstream
  remove_upstream_by_id r id = removed_upstream (lookup id r.upstream) r id

  unfoldable pub save_downstream : Repository Uuid U D → Uuid → D → Repository Uuid U D × D
  save_downstream r id info = (record r { downstream = insert id info r.downstream }, info)

  unfoldable pub find_downstream_by_id : Repository Uuid U D → Uuid → Option D
  find_downstream_by_id r id = lookup id r.downstream

  unfoldable pub removed_downstream :
      Option D → Repository Uuid U D → Uuid → Option (Repository Uuid U D)
  removed_downstream none r id = none
  removed_downstream (some info) r id = some (record r { downstream = erase id r.downstream })

  unfoldable pub remove_downstream_by_id : Repository Uuid U D → Uuid → Option (Repository Uuid U D)
  unfolding removed_downstream
  remove_downstream_by_id r id = removed_downstream (lookup id r.downstream) r id
