-- ===== src/Access/Gate/Waiting.antt =====
-- The header `Retry-After` of backend/reversing_lab/api/rate_limit.py is long enough.
use reversing_lab.Prelude.{
  ℕ, ◌+◌, ◌*◌, ◌≤◌, ◌<◌, String, ◌≡◌, refl, ◌∙◌, Option, none, some, arith, eq_iff, Bool-cases,
  Option-cases, inl, inr, ◌/◌,
}
use reversing_lab.Prelude.Dict.{lookup}
use reversing_lab.Access.Auth.{Principal, Request}
use reversing_lab.Access.Limiter.{Windows, Hits, check, hit}
use reversing_lab.Access.Window.{lookup-check, answer-check, retry_after_exact}
use reversing_lab.Access.Gate.{Limits, is_exempt, principal_key, enforce_rate_limit}

-- A refusal leaves the entry and the answer of its key's own count.
hit_of_check :
    (limit window now : ℕ) (key : String) (windows : Windows) (e : Hits) (r : ℕ)
    → (check limit window now key windows).1 ≡ some r
    → lookup key (check limit window now key windows).0 ≡ some e
    → hit limit window now (lookup key windows) ≡ (e, some r)
hit_of_check limit window now key windows e r a l = ground (
  arith,
  lookup-check limit window now key key windows,
  answer-check limit window now key windows,
  (eq_iff key key).1 refl,
)

allowed_later :
    (limit window now later : ℕ) (key : String) (windows : Windows) (e : Hits) (r : ℕ)
    → 0 < limit
    → 0 < window
    → (check limit window now key windows).1 ≡ some r
    → lookup key (check limit window now key windows).0 ≡ some e
    → now + r ≤ later
    → (check limit window later key (check limit window now key windows).0).1 ≡ none
allowed_later limit window now later key windows e r some_limit some_window a l w =
    let h = hit_of_check limit window now key windows e r a l in
    let again =
      (retry_after_exact limit window some_window now later r (lookup key windows) e some_limit h
          (omega arith)).1
        w in
    answer-check limit window later key (check limit window now key windows).0 ∙ rw l again

wait_covers : (r t : ℕ) → 0 < t → r ≤ (r / t + 1) * t
wait_covers r t h = grind arith

-- A client that is told to wait so many seconds, and whose key makes no other request meanwhile, is
-- let through when it has waited: the header, rounded to whole seconds, is never too short.
pub waiting_suffices :
    (limits : Limits) (now later seconds : ℕ) (principal : Option Principal) (request : Request)
    (windows windows' : Windows) (e : Hits)
    → 0 < limits.requests
    → 0 < limits.window
    → 0 < limits.ticks_per_second
    → enforce_rate_limit limits now principal request windows ≡ (windows', some seconds)
    → lookup (principal_key principal request.client_host) windows' ≡ some e
    → now + seconds * limits.ticks_per_second ≤ later
    → (enforce_rate_limit limits later principal request windows').1 ≡ none
unfolding enforce_rate_limit
waiting_suffices limits now later seconds principal request windows windows' e some_requests
      some_window some_ticks h l w =
    let key = principal_key principal request.client_host in
    let first = check limits.requests limits.window now key windows in
    elim (Bool-cases (is_exempt limits request)) [
      | inl exempt ↦ ground (arith, exempt)
      | inr counted ↦ elim (Option-cases first.1) [
        | inl fine ↦ ground (arith, counted, fine)
        | inr refused ↦
            let same : first.0 ≡ windows' = ground (arith, counted) in
            let told : refused.0 / limits.ticks_per_second + 1 ≡ seconds =
              ground (arith, counted, refused.1) in
            let covers : refused.0 ≤ seconds * limits.ticks_per_second =
              rw (← told) (wait_covers refused.0 limits.ticks_per_second some_ticks) in
            let again =
              allowed_later limits.requests limits.window now later key windows e refused.0
                some_requests some_window refused.1 (rw same l) (omega (arith, covers)) in
            ground (arith, counted, same, again)
      ]
    ]
