-- ===== src/Message/Tests.antt =====
-- The text t:n.
use iscp_go.Prelude.{ℕ, ◌≡◌, ◌↔◌, List, [], ◌∷◌, some}
use iscp_go.Message.Filters.{DataFilter, filter_string, parse_data_filter}
use iscp_go.Message.Filters.Text.{NoColon, parse_iff-filter_string}

abbrev text : List ℕ
text = 116 ∷ 58 ∷ 110 ∷ []

abbrev filter : DataFilter
filter = record { name = 110 ∷ []; type_name = 116 ∷ [] }

parse_iff-filter_string_example :
    (parse_data_filter text ≡ some filter)
    ↔ ((text ≡ filter_string filter) × NoColon (110 ∷ []) × NoColon (116 ∷ []))
parse_iff-filter_string_example = parse_iff-filter_string text filter
