-- ===== src/Sdk/Request/Bounds.antt =====
-- How often a request is sent, when it is sent again, and what it returns,
-- sdk/typescript/src/client.ts.
use native.Mathlib.Numerals.{add-one}
use farfield.Base.{
  ℕ, zero, suc, ◌+◌, ◌≤◌, ◌<◌, ◌≡◌, refl, subst, ap, true, false, List, [], ◌∷◌, Option, Text,
  length, replicate, arith, ◌⊎◌, inl, inr,
}
use farfield.Sdk.Client.{Result, ok}
use farfield.Sdk.Request.{
  Reader, Settings, Answer, replied, broken, Round, is_retryable, is_success, Sent, retry_delay,
  decode, Decision, finish, retry, wait, backoff, caught, again, received, decide, Trace, sent_now,
  ended, after, attempts, request,
}

-- An answer that another attempt may mend: a status of the list, or no response at all.
abbrev pub IsTransient : Answer → Type 0
IsTransient (replied status body retry_after) =
    (is_success status ≡ false) × (is_retryable status ≡ true)
IsTransient (broken message) = Unit

module _ {J : Type 0} (reader : Reader J) (settings : Settings) (method path : Text) where
  -- The wait behind an attempt: exponential, unless the response asks for another.
  abbrev pub delay_of : ℕ → Answer → ℕ
  delay_of attempt (replied status body retry_after) =
      retry_delay reader retry_after (backoff settings attempt)
  delay_of attempt (broken message) = backoff settings attempt

  -- Why an attempt is followed by another.
  pub record IsRetried (attempt : ℕ) (r : Round) (ms : ℕ) : Type 0 where
    pub left : attempt < settings.max_retries
    pub not_aborted : r.aborted ≡ false
    pub transient : IsTransient r.answer
    pub delay : ms ≡ delay_of attempt r.answer

  decide-retry :
      (attempt : ℕ) (r : Round) (a : Answer) (ms : ℕ)
      → decide reader settings method path attempt r a ≡ retry ms
      → (attempt < settings.max_retries)
        × (r.aborted ≡ false)
        × IsTransient a
        × (ms ≡ delay_of attempt a)
  unfolding decide received caught again wait
  decide-retry attempt r (replied status body retry_after) ms h = ground arith
  decide-retry attempt r (broken message) ms h = ground arith

  -- The answer is a success, and its body decodes to the value.
  abbrev pub IsReceived : Answer → Option J → Type 0
  IsReceived (replied status body retry_after) value =
      (is_success status ≡ true) × (decode reader settings method path body ≡ ok value)
  IsReceived (broken message) value = ⊥

  decide-ok :
      (attempt : ℕ) (r : Round) (a : Answer) (value : Option J)
      → decide reader settings method path attempt r a ≡ finish (ok value)
      → IsReceived a value
  unfolding decide received caught again wait
  decide-ok attempt r (replied status body retry_after) value h = ground arith
  decide-ok attempt r (broken message) value h = ground arith

  decide_cases :
      (d : Decision J)
      → ((result : Result (Option J)) × (d ≡ finish result)) ⊎ ((ms : ℕ) × (d ≡ retry ms))
  decide_cases (finish result) = inl (result, refl)
  decide_cases (retry ms) = inr (ms, refl)

  module _ (rounds : ℕ → Round) (body : Option Text) where
    abbrev decision_at : ℕ → Decision J
    decision_at attempt =
        decide reader settings method path attempt (rounds attempt) (rounds attempt).answer

    abbrev this_request : Sent
    this_request = sent_now reader settings method path body

    -- Every wait stands behind an attempt that is followed by another.
    abbrev pub AreRetried : ℕ → List ℕ → Type 0
    AreRetried attempt [] = Unit
    AreRetried attempt (ms ∷ waits) =
        IsRetried attempt (rounds attempt) ms × AreRetried (suc attempt) waits

    -- The call from an attempt on: one attempt for each wait, and the next one ends it.
    pub record IsRun (attempt : ℕ) (t : Trace J) : Type 0 where
      pub within : attempt + length t.waits ≤ settings.max_retries
      pub earlier : AreRetried attempt t.waits
      pub ends : decision_at (attempt + length t.waits) ≡ finish t.result
      pub same_request : t.sent ≡ replicate (suc (length t.waits)) this_request

    ended-IsRun :
        (attempt : ℕ) (result : Result (Option J))
        → attempt ≤ settings.max_retries
        → decision_at attempt ≡ finish result
        → IsRun attempt (ended reader settings method path body result)
    ended-IsRun attempt result le d = record {
      within = omega arith;
      earlier = tt;
      ends = subst (λ k. decision_at k ≡ finish result) (omega arith) d;
      same_request = refl;
    }

    after-IsRun :
        (attempt ms : ℕ) (rest : Trace J)
        → decision_at attempt ≡ retry ms
        → IsRun (suc attempt) rest
        → IsRun attempt (after reader settings method path body ms rest)
    after-IsRun attempt ms rest d run =
        let (left, not_aborted, transient, delay) =
          decide-retry attempt (rounds attempt) (rounds attempt).answer ms d in
        record {
          within = omega (arith, run.within);
          earlier = (
            record { left = left; not_aborted = not_aborted; transient = transient; delay = delay },
            run.earlier,
          );
          ends = subst (λ k. decision_at k ≡ finish rest.result) (omega arith) run.ends;
          same_request = ap (λ sent. this_request ∷ sent) run.same_request;
        }

    attempts-IsRun :
        (left attempt : ℕ)
        → attempt + left ≡ settings.max_retries
        → IsRun attempt (attempts reader settings method path (suc left) attempt rounds body)
    unfolding attempts
    attempts-IsRun zero attempt e = elim (decide_cases (decision_at attempt)) [
      | inl (result, d) ↦ rw (d, attempts) (ended-IsRun attempt result (omega arith) d)
      | inr (ms, d) ↦
          absurd
            (omega (arith, (decide-retry attempt (rounds attempt) (rounds attempt).answer ms d).0))
    ]
    attempts-IsRun (suc left) attempt e = elim (decide_cases (decision_at attempt)) [
      | inl (result, d) ↦ rw (d, attempts) (ended-IsRun attempt result (omega arith) d)
      | inr (ms, d) ↦
          rw (d, attempts)
            (after-IsRun attempt ms
              (attempts reader settings method path (suc left) (suc attempt) rounds body) d
              (attempts-IsRun left (suc attempt) (omega arith)))
    ]

    -- Whatever the answers: a call sends at most `maxRetries + 1` requests, all the same, body
    -- included; each but the last got no response or a status of the retry list, with the signal
    -- not aborted, and was followed by a wait of `retryDelayMs * 2 ^ attempt`, or of what the
    -- response's `Retry-After` asks for; and the last one's answer decides the result. The loop
    -- never runs out of attempts.
    pub request-IsRun : IsRun 0 (request reader settings method path rounds (ok body))
    unfolding request
    request-IsRun =
        rw (add-one settings.max_retries) (attempts-IsRun settings.max_retries 0 (omega arith))

    -- A call that returns a value got it from its last attempt: a status from 200 to 299 and a body
    -- that decodes to the value.
    pub request-ok :
        (value : Option J)
        → let t = request reader settings method path rounds (ok body) in
          t.result ≡ ok value → IsReceived (rounds (length t.waits)).answer value
    request-ok value h =
        let run = request-IsRun in
        let t = request reader settings method path rounds (ok body) in
        let last = length t.waits in
        let ends : decision_at last ≡ finish t.result =
          subst (λ k. decision_at k ≡ finish t.result) (omega arith) run.ends in
        decide-ok last (rounds last) (rounds last).answer value (rw h at ends)
