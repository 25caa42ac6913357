-- ===== src/Upstream/Data.antt =====
-- iscp/data.go, and the types of message/data.go and message/data_id.go that it stands on. An elapsed
-- time is a natural number of nanoseconds; a payload is a list of bytes.
use text.Mathlib.TextEquality.{eq_iff}
use iscp_go.Prelude.{
  ℕ, ◌+◌, ◌≡◌, ◌↔◌, List, [], ◌∷◌, ◌++◌, Option, none, some, Bool, true, ◌&&◌, arith, String,
  Comparable, ◌==◌, nat_eq, string_eq, length, Map, lookup, insert,
}

-- message.DataID
pub record DataId : Type 0 where
  pub name : String
  pub type_name : String

abbrev same_id : DataId → DataId → Bool
same_id x y = (x.name == y.name) && (x.type_name == y.type_name)

pub same_id_iff : (x y : DataId) → (same_id x y ≡ true) ↔ (x ≡ y)
same_id_iff x y = ground (arith, eq_iff x.name y.name, eq_iff x.type_name y.type_name)

instance abbrev pub data_id_eq : Comparable DataId
data_id_eq = record { same = same_id; same_iff = same_id_iff }

-- message.DataPoint
pub record DataPoint : Type 0 where
  pub elapsed_time : ℕ
  pub payload : List ℕ

abbrev pub DataPoints : Type 0
DataPoints = List DataPoint

unfoldable pub points_without_payload : DataPoints → DataPoints
points_without_payload [] = []
points_without_payload (v ∷ ps) =
    record { elapsed_time = v.elapsed_time; payload = [] } ∷ points_without_payload ps

pub record DataPointGroup : Type 0 where
  pub data_id : DataId
  pub data_points : DataPoints

unfoldable pub points_size : DataPoints → ℕ
points_size [] = 0
points_size (v ∷ ps) = length v.payload + points_size ps

unfoldable pub payload_size : DataPointGroup → ℕ
payload_size dpg = points_size dpg.data_points

abbrev pub DataPointGroups : Type 0
DataPointGroups = List DataPointGroup

unfoldable pub without_payload : DataPointGroups → DataPointGroups
without_payload [] = []
without_payload (dpg ∷ dpgs) =
    record { data_id = dpg.data_id; data_points = points_without_payload dpg.data_points }
    ∷ without_payload dpgs

-- message.DataIDOrAlias
pub data DataIdOrAlias : Type 0 where
  by_id : DataId → DataIdOrAlias
  by_alias : ℕ → DataIdOrAlias

-- message.DataPointGroup
pub record MessageGroup : Type 0 where
  pub data_id_or_alias : DataIdOrAlias
  pub group_points : DataPoints

-- `res`, `resIDs` and `alreadyAppended`
pub record Converted : Type 0 where
  pub res : List MessageGroup
  pub res_ids : List DataId
  pub already_appended : Map DataId Bool

abbrev pub named : Option Bool → Converted → DataId → Converted
named (some b) r id = r
named none r id = record r {
  res_ids = r.res_ids ++ (id ∷ []);
  already_appended = insert id true r.already_appended;
}

abbrev pub add_group : Converted → DataIdOrAlias → DataPoints → Converted
add_group r id dps = record r {
  res = r.res ++ (record { data_id_or_alias = id; group_points = dps } ∷ []);
}

-- One round of the loop, by what `revAliases` holds for the data ID.
unfoldable pub convert_group : Option ℕ → Converted → DataPointGroup → Converted
convert_group (some alias) r dpg = add_group r (by_alias alias) dpg.data_points
convert_group none r dpg =
    add_group (named (lookup dpg.data_id r.already_appended) r dpg.data_id) (by_id dpg.data_id)
      dpg.data_points

unfoldable pub convert_all : Map DataId ℕ → Converted → DataPointGroups → Converted
unfolding convert_group
convert_all rev_aliases r [] = r
convert_all rev_aliases r (dpg ∷ dpgs) =
    convert_all rev_aliases (convert_group (lookup dpg.data_id rev_aliases) r dpg) dpgs

unfoldable pub to_upstream_data_point_groups : DataPointGroups → Map DataId ℕ → Converted
to_upstream_data_point_groups dpgs rev_aliases =
    convert_all rev_aliases (record { res = []; res_ids = []; already_appended = [] }) dpgs
