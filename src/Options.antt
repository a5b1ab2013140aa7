-- ===== src/Options.antt =====
-- options.go: the query of a relation field's option list.
pub mod Laws
use editrig_go.Base.{
  ℕ, zero, suc, min, Bool, true, false, not, Option, none, some, List, [], ◌∷◌, String, ◌==◌,
  if◌then◌else◌, leb, ltb,
}
use editrig_go.Text.{split, trim_space}
use editrig_go.Text.Decimal.{Parsed, bad, negative, natural, atoi}
use editrig_go.Map.{Map, lookup}
use editrig_go.Entity.{OptionsQuery}

abbrev pub options_default_limit : ℕ
options_default_limit = 50

abbrev pub options_max_limit : ℕ
options_max_limit = 200

-- `q.Get(key)`.
abbrev first_value : Option (List String) → String
first_value none = ""
first_value (some []) = ""
first_value (some (v ∷ rest)) = v

unfoldable pub query_get : Map (List String) → String → String
query_get q key = first_value (lookup key q)

-- A garbage limit is the default, a large one the ceiling.
abbrev pub clamp_limit : Parsed → ℕ
clamp_limit bad = options_default_limit
clamp_limit (negative n) = options_default_limit
clamp_limit (natural n) = if ltb 0 n then min n options_max_limit else options_default_limit

-- The loop over the comma-separated ids.
unfoldable pub clean_ids : List String → List String
clean_ids [] = []
clean_ids (raw ∷ rest) =
    let ids = clean_ids rest in if trim_space raw == "" then ids else trim_space raw ∷ ids

unfoldable pub options_query : Map (List String) → OptionsQuery
options_query q = record {
  search = trim_space (query_get q "q");
  limit = clamp_limit (atoi (query_get q "limit"));
  ids = clean_ids (split b',' (query_get q "ids"));
  parent = trim_space (query_get q "parent");
}
