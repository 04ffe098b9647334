-- ===== src/Sdk/Options/Configured.antt =====
-- What the constructor of a client makes sure of, sdk/typescript/src/client.ts.
use farfield.Base.{
  ◌==◌, ◌≡◌, ◌≢◌, ◌⊎◌, refl, true, false, none, not, ◌&&◌, [], ◌∷◌, some, Text, is_truthy, arith,
  Bool-cases, Option-cases, inl, inr,
}
use farfield.Sdk.Client.{Result, ok, fault, type_error}
use farfield.Sdk.Options.{
  Amount, natural, infinite, not_a_number, FarfieldOptions, Url, Environment, Farfield,
  strip_slashes, endpoint_of, is_plain_url, is_below_zero, is_zero_or_below, timeout_of, retries_of,
  delay_of, configure, construct,
}

strip_slashes-twice : (s : Text) → strip_slashes (strip_slashes s) ≡ strip_slashes s
unfolding strip_slashes
strip_slashes-twice [] = refl
strip_slashes-twice (c ∷ s) = elim (Bool-cases (c == b'/' && not (is_truthy (strip_slashes s)))) [
  | inl ends ↦ rw ends refl
  | inr goes_on ↦ rw (goes_on, strip_slashes-twice s, goes_on) refl
]

-- A number that is natural, infinite or NaN.
abbrev pub IsNotBelow : Amount → Type 0
IsNotBelow (natural n) = Unit
IsNotBelow infinite = Unit
IsNotBelow not_a_number = Unit
IsNotBelow _ = ⊥

-- A number that is positive or NaN.
abbrev pub IsPositive : Amount → Type 0
IsPositive (natural n) = n ≢ 0
IsPositive n = IsNotBelow n

-- An endpoint that is no URL, or none with a plain scheme and neither query nor fragment.
abbrev pub IsRefused : Environment → Text → Type 0
IsRefused environment endpoint =
    (environment.parse_url endpoint ≡ none)
    ⊎ ((url : Url) × (environment.parse_url endpoint ≡ some url) × (is_plain_url url ≡ false))

abbrev HasGoodNumbers : FarfieldOptions → Type 0
HasGoodNumbers options =
    IsPositive (timeout_of options)
    × IsNotBelow (retries_of options)
    × IsNotBelow (delay_of options)

-- What can come of a call of the constructor.
abbrev pub Constructs : Environment → FarfieldOptions → Result Farfield → Type 0
Constructs environment options (ok f) =
    (f.endpoint ≡ endpoint_of environment options)
    × (strip_slashes f.endpoint ≡ f.endpoint)
    × ((url : Url) × (environment.parse_url f.endpoint ≡ some url) × (is_plain_url url ≡ true))
    × (f.timeout_ms ≡ timeout_of options)
    × (f.max_retries ≡ retries_of options)
    × (f.retry_delay_ms ≡ delay_of options)
    × HasGoodNumbers options
Constructs environment options (fault (type_error message)) =
    IsRefused environment (endpoint_of environment options) ⊎ ¬ (HasGoodNumbers options)
Constructs environment options (fault _) = ⊥

not-IsNotBelow : (n : Amount) → is_below_zero n ≡ true → ¬ (IsNotBelow n)
not-IsNotBelow n h g = ground arith

IsNotBelow-not : (n : Amount) → is_below_zero n ≡ false → IsNotBelow n
IsNotBelow-not n h = ground arith

not-IsPositive : (n : Amount) → is_zero_or_below n ≡ true → ¬ (IsPositive n)
not-IsPositive n h g = ground arith

IsPositive-not : (n : Amount) → is_zero_or_below n ≡ false → IsPositive n
IsPositive-not n h = ground arith

module _ (environment : Environment) (options : FarfieldOptions) where
  configure-Constructs :
      (url : Url)
      → environment.parse_url (endpoint_of environment options) ≡ some url
      → is_plain_url url ≡ true
      → Constructs environment options
          (configure environment options (endpoint_of environment options))
  unfolding configure
  configure-Constructs url parsed plain =
      elim (Bool-cases (is_zero_or_below (timeout_of options))) [
        | inl low ↦
            rw (low, configure) (inr (λ (t, r, d). not-IsPositive (timeout_of options) low t))
        | inr positive ↦ elim (Bool-cases (is_below_zero (retries_of options))) [
          | inl low ↦
              rw (positive, low, configure)
                (inr (λ (t, r, d). not-IsNotBelow (retries_of options) low r))
          | inr tried ↦ elim (Bool-cases (is_below_zero (delay_of options))) [
            | inl low ↦
                rw (positive, tried, low, configure)
                  (inr (λ (t, r, d). not-IsNotBelow (delay_of options) low d))
            | inr delayed ↦
                rw (positive, tried, delayed, configure)
                  (
                    refl,
                    strip_slashes-twice _,
                    (url, parsed, plain),
                    refl,
                    refl,
                    refl,
                    (
                      IsPositive-not (timeout_of options) positive,
                      IsNotBelow-not (retries_of options) tried,
                      IsNotBelow-not (delay_of options) delayed,
                    ),
                  )
          ]
        ]
      ]

  -- The constructor returns a client or throws a TypeError. A client has the endpoint of the
  -- options, of the environment or the default, without a slash at its end and with a plain http or
  -- https URL, and the numbers of the options or the defaults: the timeout is positive or NaN, the
  -- retries and the delay are not below 0 or are NaN. It throws only where the URL is none of that
  -- kind or a number is none of those.
  pub construct-Constructs : Constructs environment options (construct environment options)
  unfolding construct
  construct-Constructs =
      elim (Option-cases (environment.parse_url (endpoint_of environment options))) [
        | inl unparsed ↦ rw (unparsed, construct) (inl (inl unparsed))
        | inr (url, parsed) ↦
            rw (parsed, construct)
              (elim (Bool-cases (is_plain_url url)) [
                | inl plain ↦ rw (plain, construct) (configure-Constructs url parsed plain)
                | inr other ↦ rw (other, construct) (inl (inr (url, parsed, other)))
              ])
      ]
