-- ===== src/Sdk/Queries.antt =====
-- sdk/typescript/src/client.ts: the requests that read. `toISOString`, `encodeURIComponent` and the
-- text of URLSearchParams are given.
pub mod Parameters
mod Tests
use farfield.Base.{
  ℕ, Bool, true, false, not, ◌&&◌, ◌||◌, List, [], ◌∷◌, ◌++◌, map, Option, none, some, Text, text,
  get_or, leb, decimal, if◌then◌else◌,
}
use farfield.Base.Map.{get, put}
use farfield.Base.Sorting.{sort_texts}
use farfield.Sdk.Types.{Moment, date, stamp}
use farfield.Sdk.Client.{Result, ok, fault, Fault, type_error, raised, ◌>>=◌, ◌>>◌}

-- A number as a limit: one that is a natural number, or any other.
pub data Limit : Type 0 where
  whole : ℕ → Limit
  odd : Limit

-- `Query`, and `SearchQuery` with its text.
pub record Query : Type 0 where
  pub text : Option Text
  pub conversation_id : Option Text
  pub trace_id : Option Text
  pub kind : Option Text
  pub agent : Option Text
  pub tool : Option Text
  pub status : Option Text
  pub tags : List (Text × Text)
  pub since : Option Moment
  pub until : Option Moment
  pub limit : Option Limit

abbrev pub Pairs : Type 0
Pairs = List (Text × Text)

-- What the engine does to dates and to parts of a URL.
pub record Encoding : Type 0 where
  pub iso : ℕ → Text
  pub print_parameters : Pairs → Text
  pub encode_component : Text → Text

abbrev pub bad_limit : Fault
bad_limit = type_error (text "farfield: limit must be an integer between 1 and 1000")

-- `validateLimit`
unfoldable pub validate_limit : Limit → Result ℕ
validate_limit (whole n) = if leb 1 n && leb n 1000 then ok n else fault bad_limit
validate_limit odd = fault bad_limit

-- `add`
unfoldable pub add_parameter : Text → Option Text → Pairs → Pairs
add_parameter key none parameters = parameters
add_parameter key (some value) parameters = put key value parameters

unfoldable pub add_parameters : List (Text × Option Text) → Pairs → Pairs
add_parameters [] parameters = parameters
add_parameters ((key, value) ∷ more) parameters =
    add_parameters more (add_parameter key value parameters)

-- `key=value` of the tags, by their keys in order, as parameters that are appended.
unfoldable pub tag_parameters : List Text → Pairs → Pairs
tag_parameters [] tags = []
tag_parameters (key ∷ keys) tags =
    (text "tag", key ++ (text "=" ++ get_or (get key tags) (text "undefined")))
    ∷ tag_parameters keys tags

abbrev pub keys : Pairs → List Text
keys [] = []
keys ((k, v) ∷ m) = k ∷ keys m

module _ (encoding : Encoding) where
  -- `value instanceof Date ? value.toISOString() : value`
  unfoldable pub instant : Option Moment → Result (Option Text)
  instant none = ok none
  instant (some (stamp s)) = ok (some s)
  instant (some (date none)) = fault (raised (text "Invalid time value"))
  instant (some (date (some ms))) = ok (some (encoding.iso ms))

  abbrev pub shared_fields : Query → Option Text → Option Text → List (Text × Option Text)
  shared_fields query since until =
      (text "conversation_id", query.conversation_id)
      ∷ (text "trace_id", query.trace_id)
      ∷ (text "kind", query.kind)
      ∷ (text "agent", query.agent)
      ∷ (text "tool", query.tool)
      ∷ (text "status", query.status)
      ∷ (text "since", since)
      ∷ (text "until", until)
      ∷ []

  -- The parameters of a query; those of a search begin with its text.
  unfoldable pub parameters_of : List (Text × Option Text) → Query → Result Pairs
  parameters_of first query = do
    limit ← validate_limit (get_or query.limit (whole 100))
    since ← instant query.since
    until ← instant query.until
    ok (
        add_parameters (first ++ shared_fields query since until)
          ((text "limit", decimal limit) ∷ [])
        ++ tag_parameters (sort_texts (keys query.tags)) query.tags)

  abbrev path_of : Text → Result Pairs → Result Text
  path_of path parameters = do pairs ← parameters; ok (path ++ encoding.print_parameters pairs)

  -- The paths that `query` and `search` request.
  unfoldable pub query_path : Query → Result Text
  query_path query = path_of (text "/v1/history/records?") (parameters_of [] query)

  unfoldable pub search_path : Query → Result Text
  search_path query =
      path_of (text "/v1/history/search?") (parameters_of ((text "q", query.text) ∷ []) query)

  -- `getRecord`, `conversations` and `timeline`
  unfoldable pub record_path : Text → Text
  record_path id = text "/v1/history/records/" ++ encoding.encode_component id

  unfoldable pub conversations_path : Option Limit → Result Text
  conversations_path limit = do
    n ← validate_limit (get_or limit (whole 100))
    ok (text "/v1/history/conversations?limit=" ++ decimal n)

  unfoldable pub timeline_path : Text → Text
  timeline_path id =
      text "/v1/history/conversations/" ++ (encoding.encode_component id ++ text "/timeline")
