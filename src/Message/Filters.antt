-- ===== src/Message/Filters.antt =====
-- message/downstream_filter.go and message/data_id.go: the text of a data filter, and that of a data ID, which is
-- the same. A Go string is the list of its bytes; an error of the parser is `none`.
pub mod Text
use iscp_go.Prelude.{ℕ, List, [], ◌∷◌, ◌++◌, Option, none, some, ◌==◌, nat_eq, if◌then◌else◌}
use mathlib.Core.Option

-- DataFilter; DataID has the same fields.
pub record DataFilter : Type 0 where
  pub name : List ℕ
  pub type_name : List ℕ

pub record DataId : Type 0 where
  pub id_name : List ℕ
  pub id_type : List ℕ

abbrev pub colon : ℕ
colon = 58

-- `fmt.Sprintf("%s:%s", d.Type, d.Name)`
unfoldable pub filter_string : DataFilter → List ℕ
filter_string d = d.type_name ++ (colon ∷ d.name)

-- `strings.Split(s, ":")`
abbrev pub add_byte : ℕ → List (List ℕ) → List (List ℕ)
add_byte b [] = (b ∷ []) ∷ []
add_byte b (p ∷ ps) = (b ∷ p) ∷ ps

unfoldable pub split : List ℕ → List (List ℕ)
split [] = [] ∷ []
split (b ∷ bs) = let rest = split bs in if b == colon then [] ∷ rest else add_byte b rest

unfoldable pub filter_of_parts : List (List ℕ) → Option DataFilter
filter_of_parts [] = none
filter_of_parts (t ∷ []) = none
filter_of_parts (t ∷ n ∷ []) = some (record { name = n; type_name = t })
filter_of_parts (t ∷ n ∷ p ∷ ps) = none

unfoldable pub parse_data_filter : List ℕ → Option DataFilter
parse_data_filter src = filter_of_parts (split src)

abbrev pub data_id_of_filter : DataFilter → DataId
data_id_of_filter d = record { id_name = d.name; id_type = d.type_name }

unfoldable pub data_id_string : DataId → List ℕ
data_id_string d = filter_string (record { name = d.id_name; type_name = d.id_type })

unfoldable pub parse_data_id : List ℕ → Option DataId
parse_data_id str = Option.map data_id_of_filter (parse_data_filter str)
