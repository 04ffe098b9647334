-- ===== src/Sdk/Queries/Parameters.antt =====
-- What the parameters of a query say, sdk/typescript/src/client.ts.
use farfield.Base.{
  ℕ, leb, ◌≡◌, refl, ◌∙◌, true, false, ◌&&◌, ◌⊎◌, inl, inr, Bool-cases, List, [], ◌∷◌, ◌++◌, Option,
  none, some, Text, map, All, text_eq_iff, text_eq_refl, text, text_eq, get_or, or_else, decimal,
  arith, if◌then◌else◌,
}
use farfield.Base.Map.{get, put, get-put}
use farfield.Base.Sorting.{sort_texts}
use farfield.Sdk.Client.{ok, fault}
use farfield.Sdk.Queries.{
  Limit, whole, odd, Query, Pairs, Encoding, validate_limit, bad_limit, add_parameter,
  add_parameters, tag_parameters, instant, shared_fields, parameters_of, query_path, search_path,
  conversations_path, keys,
}

-- The value of a field, of which the last one wins.
abbrev given : Text → List (Text × Option Text) → Option Text
given j [] = none
given j ((k, v) ∷ more) = let rest = given j more in if text_eq k j then or_else rest v else rest

get-add_parameters :
    (j : Text) (fields : List (Text × Option Text)) (m : Pairs)
    → get j (add_parameters fields m) ≡ or_else (given j fields) (get j m)
unfolding add_parameters add_parameter
get-add_parameters j [] m = refl
get-add_parameters j ((k, none) ∷ more) m = ground (arith, get-add_parameters j more m)
get-add_parameters j ((k, some v) ∷ more) m =
    get-add_parameters j more (put k v m) ∙ ground (arith, get-put k j v m)

get-append : (j : Text) (m n : Pairs) → get j (m ++ n) ≡ or_else (get j m) (get j n)
unfolding get
get-append j [] n = refl
get-append j ((k, v) ∷ m) n = ground (arith, get-append j m n)

get-tag_parameters :
    (j : Text) (ks : List Text) (tags : Pairs)
    → text_eq (text "tag") j ≡ false
    → get j (tag_parameters ks tags) ≡ none
unfolding get tag_parameters
get-tag_parameters j [] tags h = refl
get-tag_parameters j (k ∷ ks) tags h = rw h (get-tag_parameters j ks tags h)

-- `getAll`
abbrev pub get_all : Text → Pairs → List Text
get_all j [] = []
get_all j ((k, v) ∷ m) = let rest = get_all j m in if text_eq k j then v ∷ rest else rest

-- `key=value` for each tag, by the keys in order.
abbrev pub tags_in_order : Pairs → List Text
tags_in_order tags =
    map (λ key. key ++ (text "=" ++ get_or (get key tags) (text "undefined")))
      (sort_texts (keys tags))

get_all-append : (j : Text) (m n : Pairs) → get_all j (m ++ n) ≡ get_all j m ++ get_all j n
get_all-append j [] n = refl
get_all-append j ((k, v) ∷ m) n = ground (arith, get_all-append j m n)

get_all-put : (j k v : Text) (m : Pairs) → text_eq k j ≡ false → get_all j (put k v m) ≡ get_all j m
unfolding put
get_all-put j k v [] h = rw h refl
get_all-put j k v ((k', v') ∷ m) h =
    ground (arith, text_eq_iff k' k, text_eq_iff k' j, text_eq_iff k j, get_all-put j k v m h)

get_all-add_parameters :
    (j : Text) (fields : List (Text × Option Text)) (m : Pairs)
    → All (λ f. text_eq f.0 j ≡ false) fields
    → get_all j (add_parameters fields m) ≡ get_all j m
unfolding add_parameters add_parameter
get_all-add_parameters j [] m h = refl
get_all-add_parameters j ((k, none) ∷ more) m (h, hs) = get_all-add_parameters j more m hs
get_all-add_parameters j ((k, some v) ∷ more) m (h, hs) =
    get_all-add_parameters j more (put k v m) hs ∙ get_all-put j k v m h

get_all-tag_parameters :
    (ks : List Text) (tags : Pairs)
    → get_all (text "tag") (tag_parameters ks tags)
      ≡ map (λ key. key ++ (text "=" ++ get_or (get key tags) (text "undefined"))) ks
unfolding tag_parameters
get_all-tag_parameters [] tags = refl
get_all-tag_parameters (k ∷ ks) tags =
    rw (text_eq_refl (text "tag"), get_all-tag_parameters ks tags) refl

-- What a server reads in the parameters.
pub record IsRead (query : Query) (limit : ℕ) (since until : Option Text) (pairs : Pairs)
    : Type 0 where
  pub limit_read : get (text "limit") pairs ≡ some (decimal limit)
  pub text_read : get (text "q") pairs ≡ query.text
  pub conversation_read : get (text "conversation_id") pairs ≡ query.conversation_id
  pub trace_read : get (text "trace_id") pairs ≡ query.trace_id
  pub kind_read : get (text "kind") pairs ≡ query.kind
  pub agent_read : get (text "agent") pairs ≡ query.agent
  pub tool_read : get (text "tool") pairs ≡ query.tool
  pub status_read : get (text "status") pairs ≡ query.status
  pub since_read : get (text "since") pairs ≡ since
  pub until_read : get (text "until") pairs ≡ until
  pub tags_read : get_all (text "tag") pairs ≡ tags_in_order query.tags

or_none : (o : Option Text) → or_else o none ≡ o
or_none none = refl
or_none (some s) = refl

module _ (encoding : Encoding) where
  abbrev pub fields_of : Query → Option Text → Option Text → List (Text × Option Text)
  fields_of query since until = (text "q", query.text) ∷ shared_fields encoding query since until

  abbrev pairs_of : Query → ℕ → Option Text → Option Text → Pairs
  pairs_of query limit since until =
      add_parameters (fields_of query since until) ((text "limit", decimal limit) ∷ [])
      ++ tag_parameters (sort_texts (keys query.tags)) query.tags

  read_field :
      (j : Text) (query : Query) (limit : ℕ) (since until : Option Text)
      → text_eq (text "tag") j ≡ false
      → get j (pairs_of query limit since until)
        ≡ or_else
            (given j (fields_of query since until))
            (get j ((text "limit", decimal limit) ∷ []))
  read_field j query limit since until h =
      get-append j
        (add_parameters (fields_of query since until) ((text "limit", decimal limit) ∷ []))
        (tag_parameters (sort_texts (keys query.tags)) query.tags)
      ∙ rw
          (
            get-tag_parameters j (sort_texts (keys query.tags)) query.tags h,
            get-add_parameters j (fields_of query since until) ((text "limit", decimal limit) ∷ []),
          )
          (or_none _)

  read_tags :
      (query : Query) (limit : ℕ) (since until : Option Text)
      → get_all (text "tag") (pairs_of query limit since until) ≡ tags_in_order query.tags
  unfolding text text_eq
  read_tags query limit since until =
      get_all-append (text "tag")
        (add_parameters (fields_of query since until) ((text "limit", decimal limit) ∷ []))
        (tag_parameters (sort_texts (keys query.tags)) query.tags)
      ∙ rw
          (
            get_all-add_parameters (text "tag") (fields_of query since until)
                ((text "limit", decimal limit) ∷ [])
                (refl, (refl, (refl, (refl, (refl, (refl, (refl, (refl, (refl, tt))))))))),
            get_all-tag_parameters (sort_texts (keys query.tags)) query.tags,
          )
          refl

  pairs_of-IsRead :
      (query : Query) (limit : ℕ) (since until : Option Text)
      → IsRead query limit since until (pairs_of query limit since until)
  unfolding text text_eq get
  pairs_of-IsRead query limit since until = record {
    limit_read = read_field (text "limit") query limit since until refl;
    text_read = read_field (text "q") query limit since until refl ∙ or_none _;
    conversation_read =
        read_field (text "conversation_id") query limit since until refl ∙ or_none _;
    trace_read = read_field (text "trace_id") query limit since until refl ∙ or_none _;
    kind_read = read_field (text "kind") query limit since until refl ∙ or_none _;
    agent_read = read_field (text "agent") query limit since until refl ∙ or_none _;
    tool_read = read_field (text "tool") query limit since until refl ∙ or_none _;
    status_read = read_field (text "status") query limit since until refl ∙ or_none _;
    since_read = read_field (text "since") query limit since until refl ∙ or_none _;
    until_read = read_field (text "until") query limit since until refl ∙ or_none _;
    tags_read = read_tags query limit since until;
  }

  path_of-read :
      (query : Query) (limit : ℕ) (since until : Option Text)
      → validate_limit (get_or query.limit (whole 100)) ≡ ok limit
      → instant encoding query.since ≡ ok since
      → instant encoding query.until ≡ ok until
      → parameters_of encoding ((text "q", query.text) ∷ []) query
        ≡ ok (pairs_of query limit since until)
  unfolding parameters_of
  path_of-read query limit since until l s u = rw (l, s, u) refl

  -- The parameters of a search, whose limit is valid and whose dates are, give back every field of
  -- the search under its name, absent ones as absent, and under `tag` one `key=value` for each of
  -- its tags, by the keys in order; the limit is 100 when none is given.
  pub search_path-IsRead :
      (query : Query) (limit : ℕ) (since until : Option Text)
      → validate_limit (get_or query.limit (whole 100)) ≡ ok limit
      → instant encoding query.since ≡ ok since
      → instant encoding query.until ≡ ok until
      → (pairs : Pairs) × (search_path encoding query
          ≡ ok (text "/v1/history/search?" ++ encoding.print_parameters pairs))
        × IsRead query limit since until pairs
  unfolding search_path
  search_path-IsRead query limit since until l s u = (
    pairs_of query limit since until,
    rw (path_of-read query limit since until l s u) refl,
    pairs_of-IsRead query limit since until,
  )

  limit_cases :
      (limit : Limit)
      → (validate_limit limit ≡ fault bad_limit)
        ⊎ ((n : ℕ) × (limit ≡ whole n) × ((leb 1 n && leb n 1000) ≡ true))
  unfolding validate_limit
  limit_cases odd = inl refl
  limit_cases (whole n) = elim (Bool-cases (leb 1 n && leb n 1000)) [
    | inl good ↦ inr (n, refl, good)
    | inr bad ↦ inl (rw bad refl)
  ]

  -- A limit that is no integer between 1 and 1000 is refused by queries, searches and listings of
  -- conversations alike, before any request.
  pub query_path-limit :
      (query : Query) (limit : Limit)
      → query.limit ≡ some limit
      → ((n : ℕ) → limit ≡ whole n → (leb 1 n && leb n 1000) ≡ false)
      → (query_path encoding query ≡ fault bad_limit)
        × (search_path encoding query ≡ fault bad_limit)
        × (conversations_path encoding (some limit) ≡ fault bad_limit)
  unfolding query_path search_path conversations_path parameters_of
  query_path-limit query limit e h = elim (limit_cases limit) [
    | inr (n, w, good) ↦ (let bad : (leb 1 n && leb n 1000) ≡ false = h n w in cc)
    | inl refused ↦ rw (e, refused) (refl, refl, refl)
  ]
