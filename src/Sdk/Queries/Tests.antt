-- ===== src/Sdk/Queries/Tests.antt =====
-- Queries on small inputs, sdk/typescript/src/client.ts.
use farfield.Base.{◌≡◌, refl, [], ◌∷◌, ◌++◌, none, some, Text, text, text_eq, decimal, decimal_from}
use farfield.Base.Map.{get, put}
use farfield.Base.Sorting.{sort_texts, insert_text, text_le}
use farfield.Sdk.Types.{stamp}
use farfield.Sdk.Client.{ok}
use farfield.Sdk.Queries.{
  whole, odd, Query, Pairs, Encoding, validate_limit, instant, add_parameter, add_parameters,
  tag_parameters, parameters_of, query_path, search_path,
}
use farfield.Sdk.Queries.Parameters.{IsRead, search_path-IsRead}

abbrev print_pairs : Pairs → Text
print_pairs [] = []
print_pairs ((k, v) ∷ pairs) = k ++ (text "=" ++ (v ++ (text ";" ++ print_pairs pairs)))

abbrev encoding : Encoding
encoding = record { iso = λ n. []; print_parameters = print_pairs; encode_component = λ s. s }

abbrev everything : Query
everything = record {
  text = some (text "x");
  conversation_id = some (text "c");
  trace_id = none;
  kind = none;
  agent = none;
  tool = none;
  status = none;
  tags = (text "b", text "2") ∷ (text "a", text "1") ∷ [];
  since = some (stamp (text "t"));
  until = none;
  limit = some (whole 5);
}

computes : Unit {0}
unfolding text text_eq get put sort_texts insert_text text_le validate_limit instant add_parameter
    add_parameters tag_parameters parameters_of query_path search_path decimal decimal_from
computes = tt

-- The tags are put in the order of their keys.
query_test :
    query_path encoding everything
    ≡ ok (text "/v1/history/records?limit=5;conversation_id=c;since=t;tag=a=1;tag=b=2;")
unfolding computes
query_test = refl

search_path-IsRead_example :
    (pairs : Pairs) × (search_path encoding everything
      ≡ ok (text "/v1/history/search?" ++ encoding.print_parameters pairs))
    × IsRead everything 5 (some (text "t")) none pairs
unfolding validate_limit instant
search_path-IsRead_example =
    search_path-IsRead encoding everything 5 (some (text "t")) none refl refl refl

abbrev too_many : Query
too_many = record everything { limit = some odd }
