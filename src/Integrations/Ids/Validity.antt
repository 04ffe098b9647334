-- ===== src/Integrations/Ids/Validity.antt =====
-- The ids that the adapters make are valid, sdk/typescript/src/integrations.
use farfield.Base.{
  ℕ, ◌+◌, ◌≤◌, ◌≡◌, refl, Bool, true, ◌&&◌, [], ◌∷◌, ◌++◌, Option, none, some, Text, length,
  length-append, all, leb, arith, Bool-cases, inl, inr,
}
use farfield.Integrations.Ids.{
  is_id_unit, matches_id, valid_id, external_id, record_id, safe_optional_id,
}

-- A digest in hexadecimal: 64 digits that an id may hold.
pub record IsDigest (sha256 : Text → Text) : Type 0 where
  pub digits : (s : Text) → length (sha256 s) ≡ 64
  pub id_units : (s : Text) → all is_id_unit (sha256 s) ≡ true

-- A prefix for ids: it begins like one, and leaves room for a digest.
pub record IsIdPrefix (prefix : Text) : Type 0 where
  pub begins : matches_id prefix ≡ true
  pub short : length prefix + 64 ≤ 255

all-append : (p : ℕ → Bool) (s t : Text) → all p s ≡ true → all p t ≡ true → all p (s ++ t) ≡ true
all-append p [] t h k = k
all-append p (c ∷ s) t h k = ground (arith, all-append p s t)

matches_id-append :
    (s t : Text) → matches_id s ≡ true → all is_id_unit t ≡ true → matches_id (s ++ t) ≡ true
unfolding matches_id
matches_id-append [] t h k = cc
matches_id-append (c ∷ s) t h k = ground (arith, all-append is_id_unit s t)

module _ (sha256 : Text → Text) (d : IsDigest sha256) where
  prefixed-valid :
      (prefix value : Text) → IsIdPrefix prefix → valid_id (prefix ++ sha256 value) ≡ true
  unfolding valid_id
  prefixed-valid prefix value p = ground (
    arith,
    length-append prefix (sha256 value),
    d.digits value,
    matches_id-append prefix (sha256 value) p.begins (d.id_units value),
  )

  -- `externalId` always makes a valid id, and keeps an id that is valid.
  pub external_id-valid :
      (value prefix : Text)
      → IsIdPrefix prefix
      → (valid_id (external_id sha256 value prefix) ≡ true)
        × (valid_id value ≡ true → external_id sha256 value prefix ≡ value)
  unfolding external_id
  external_id-valid value prefix p = elim (Bool-cases (valid_id value)) [
    | inl kept ↦ rw kept (kept, λ _. refl)
    | inr hashed ↦ rw hashed (prefixed-valid prefix value p, λ k. cc)
  ]

  -- `recordId` always makes a valid id, which begins with the prefix.
  pub record_id-valid :
      (prefix value : Text)
      → IsIdPrefix prefix
      → (valid_id (record_id sha256 prefix value) ≡ true)
        × ((rest : Text) × (record_id sha256 prefix value ≡ prefix ++ rest))
  unfolding record_id
  record_id-valid prefix value p =
      elim (Bool-cases (leb (length (prefix ++ value)) 255 && valid_id (prefix ++ value))) [
        | inl kept ↦ rw kept (ground arith, (value, refl))
        | inr hashed ↦ rw hashed (prefixed-valid prefix value p, (sha256 value, refl))
      ]

  pub safe_optional_id-valid :
      (value : Option Text) (prefix id : Text)
      → IsIdPrefix prefix
      → safe_optional_id sha256 value prefix ≡ some id
      → valid_id id ≡ true
  unfolding safe_optional_id
  safe_optional_id-valid none prefix id p e = cc
  safe_optional_id-valid (some value) prefix id p e =
      ground (arith, (external_id-valid value prefix p).0)
