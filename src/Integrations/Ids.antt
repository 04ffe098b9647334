-- ===== src/Integrations/Ids.antt =====
-- `validId`, `externalId`, `recordId` and `safeOptionalId`, sdk/typescript/src/integrations. The
-- SHA-256 digest in hexadecimal is a parameter.
pub mod Validity
use farfield.Base.{
  ℕ, Bool, true, false, ◌&&◌, ◌||◌, List, [], ◌∷◌, ◌++◌, Option, none, some, Text, length, all, leb,
  ◌==◌, if◌then◌else◌,
}

-- `[A-Za-z0-9]`
unfoldable pub is_alnum : ℕ → Bool
is_alnum c = (leb b'A' c && leb c b'Z') || (leb b'a' c && leb c b'z') || (leb b'0' c && leb c b'9')

-- `[A-Za-z0-9._:@/-]`
unfoldable pub is_id_unit : ℕ → Bool
is_id_unit c =
    is_alnum c || c == b'.' || c == b'_' || c == b':' || c == b'@' || c == b'/' || c == b'-'

-- `/^[A-Za-z0-9][A-Za-z0-9._:@/-]*$/`
unfoldable pub matches_id : Text → Bool
matches_id [] = false
matches_id (c ∷ s) = is_alnum c && all is_id_unit s

-- `validId`
unfoldable pub valid_id : Text → Bool
valid_id s = leb 1 (length s) && leb (length s) 255 && matches_id s

module _ (sha256 : Text → Text) where
  -- `externalId`
  unfoldable pub external_id : Text → Text → Text
  external_id value prefix = if valid_id value then value else prefix ++ sha256 value

  -- `recordId`
  unfoldable pub record_id : Text → Text → Text
  record_id prefix value =
      let candidate = prefix ++ value in
      if leb (length candidate) 255 && valid_id candidate then candidate else prefix ++ sha256 value

  -- `safeOptionalId`
  unfoldable pub safe_optional_id : Option Text → Text → Option Text
  safe_optional_id none prefix = none
  safe_optional_id (some value) prefix = some (external_id value prefix)
