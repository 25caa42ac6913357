-- ===== src/Upstream/Aliases.antt =====
-- What a server makes of the groups of a chunk, and what becomes of its aliases.
use mathlib.Core.List.{append_assoc, append-nil}
use iscp_go.Prelude.{
  ℕ, ◌≡◌, refl, sym, ap, ◌∙◌, List, [], ◌∷◌, ◌++◌, Option, none, some, Bool, true, false, ◌==◌,
  nat_eq, if◌then◌else◌, Map, lookup, lookup-insert,
}
use mathlib.Core.Option
use iscp_go.Upstream.Data.{
  DataId, data_id_eq, same_id_iff, DataPointGroup, DataPointGroups, DataIdOrAlias, by_id, by_alias,
  MessageGroup, Converted, named, convert_group, convert_all, to_upstream_data_point_groups,
}
use iscp_go.Upstream.{Upstream, keep_alias, process_data_id_aliases}

-- A server gives each alias it has to one data ID.
abbrev pub resolve : Map ℕ DataId → DataIdOrAlias → Option DataId
resolve server (by_id id) = some id
resolve server (by_alias a) = lookup a server

abbrev pub resolve_group : Map ℕ DataId → MessageGroup → Option DataPointGroup
resolve_group server g =
    Option.map (λ id. record { data_id = id; data_points = g.group_points })
      (resolve server g.data_id_or_alias)

unfoldable pub resolved : Map ℕ DataId → List MessageGroup → List (Option DataPointGroup)
resolved server [] = []
resolved server (g ∷ gs) = resolve_group server g ∷ resolved server gs

unfoldable pub all_present : DataPointGroups → List (Option DataPointGroup)
all_present [] = []
all_present (g ∷ gs) = some g ∷ all_present gs

-- The aliases that the upstream uses are the server's.
abbrev pub Agrees : Map ℕ DataId → Map DataId ℕ → Type 0
Agrees server rev = (id : DataId) (a : ℕ) → lookup id rev ≡ some a → lookup a server ≡ some id

abbrev pub FromServer : Map ℕ DataId → Map ℕ DataId → Type 0
FromServer server [] = Unit {0}
FromServer server ((a, id) ∷ rest) = (lookup a server ≡ some id) × FromServer server rest

resolved-append :
    (server : Map ℕ DataId) (gs hs : List MessageGroup)
    → resolved server (gs ++ hs) ≡ resolved server gs ++ resolved server hs
unfolding resolved
resolved-append server [] hs = refl
resolved-append server (g ∷ gs) hs =
    ap (λ xs. resolve_group server g ∷ xs) (resolved-append server gs hs)

added :
    (server : Map ℕ DataId) (c : Bool) (id k : DataId) (a b : ℕ) (old : Option ℕ)
    → (if c then some a else old) ≡ some b
    → (c ≡ true → id ≡ k)
    → lookup a server ≡ some id
    → (old ≡ some b → lookup b server ≡ some k)
    → lookup b server ≡ some k
added server true id k a b old q same e h = let p = same refl in cc
added server false id k a b old q same e h = h q

keep_alias-Agrees :
    (server : Map ℕ DataId) (o : Option ℕ) (u : Upstream) (a : ℕ) (id : DataId)
    → Agrees server u.rev_data_id_aliases
    → lookup a server ≡ some id
    → Agrees server (keep_alias o u a id).rev_data_id_aliases
unfolding keep_alias
keep_alias-Agrees server (some c) u a id h e k b q = h k b q
keep_alias-Agrees server none u a id h e k b q =
    added server (id == k) id k a b (lookup k u.rev_data_id_aliases)
      (sym (lookup-insert id k a u.rev_data_id_aliases) ∙ q) (same_id_iff id k).0 e (h k b)

pub process-Agrees :
    (server : Map ℕ DataId) (u : Upstream) (aliases : Map ℕ DataId)
    → Agrees server u.rev_data_id_aliases
    → FromServer server aliases
    → Agrees server (process_data_id_aliases u aliases).rev_data_id_aliases
unfolding process_data_id_aliases
process-Agrees server u [] h f = h
process-Agrees server u ((a, id) ∷ rest) h f =
    process-Agrees server (keep_alias (lookup id u.rev_data_id_aliases) u a id) rest
      (keep_alias-Agrees server (lookup id u.rev_data_id_aliases) u a id h f.0) f.1

named-res : (o : Option Bool) (r : Converted) (id : DataId) → (named o r id).res ≡ r.res
named-res none r id = refl
named-res (some b) r id = refl

convert_group-resolved :
    (server : Map ℕ DataId) (o : Option ℕ) (r : Converted) (dpg : DataPointGroup)
    → ((a : ℕ) → o ≡ some a → lookup a server ≡ some dpg.data_id)
    → resolved server (convert_group o r dpg).res ≡ resolved server r.res ++ (some dpg ∷ [])
unfolding convert_group resolved
convert_group-resolved server (some a) r dpg h =
    resolved-append server r.res _
    ∙ ap
        (λ (x : Option DataId).
          resolved server r.res
          ++ (Option.map (λ id. record { data_id = id; data_points = dpg.data_points }) x ∷ []))
        (h a refl)
convert_group-resolved server none r dpg h =
    resolved-append server (named (lookup dpg.data_id r.already_appended) r dpg.data_id).res _
    ∙ ap (λ gs. resolved server gs ++ (some dpg ∷ []))
        (named-res (lookup dpg.data_id r.already_appended) r dpg.data_id)

convert_all-resolved :
    (server : Map ℕ DataId) (rev : Map DataId ℕ) (r : Converted) (dpgs : DataPointGroups)
    → Agrees server rev
    → resolved server (convert_all rev r dpgs).res ≡ resolved server r.res ++ all_present dpgs
unfolding convert_all all_present
convert_all-resolved server rev r [] h = sym (append-nil _)
convert_all-resolved server rev r (dpg ∷ dpgs) h =
    convert_all-resolved server rev (convert_group (lookup dpg.data_id rev) r dpg) dpgs h
    ∙ ap (λ xs. xs ++ all_present dpgs)
        (convert_group-resolved server (lookup dpg.data_id rev) r dpg (h dpg.data_id))
    ∙ append_assoc (resolved server r.res) (some dpg ∷ []) (all_present dpgs)

-- A server that gives each alias to one data ID, from which all aliases of the upstream come, gets back
-- each group of a chunk with its data ID and its points, in order, also after the upstream has taken in
-- any further aliases of that server.
pub groups_resolve :
    (server : Map ℕ DataId) (u : Upstream) (aliases : Map ℕ DataId) (dpgs : DataPointGroups)
    → Agrees server u.rev_data_id_aliases
    → FromServer server aliases
    → resolved server
        (to_upstream_data_point_groups dpgs
          (process_data_id_aliases u aliases).rev_data_id_aliases).res
      ≡ all_present dpgs
unfolding to_upstream_data_point_groups
groups_resolve server u aliases dpgs h f =
    unfold resolved in convert_all-resolved server _ _ dpgs (process-Agrees server u aliases h f)
