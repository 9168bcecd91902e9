-- ===== src/Access/Gate.antt =====
-- `enforce_rate_limit` of backend/reversing_lab/api/rate_limit.py, and the two dependencies that every
-- request passes in the order of backend/reversing_lab/api/app.py: `authorize_request`, which may raise
-- first, and then the limiter.
pub mod Keys
pub mod Waiting
use Prim.Native.String.{◌++◌}
use reversing_lab.Prelude.{
  ℕ, ◌+◌, ◌/◌, String, Bool, not, ◌||◌, Option, none, some, if◌then◌else◌, str_eq,
}
use reversing_lab.Access.Auth.{
  Principal, Settings, Request, Outcome, allowed, key_required, key_invalid, forbidden,
  broken_descriptor, Authorized, authorize_request,
}
use reversing_lab.Access.Limiter.{Windows, check}

pub record Limits : Type 0 where
  pub enabled : Bool
  pub requests : ℕ
  -- rate_limit_window_seconds, in ticks
  pub window : ℕ
  pub ticks_per_second : ℕ

abbrev pub host_key : Option String → String
host_key none = "host:unknown"
host_key (some host) = "host:" ++ host

-- `_principal_key`, from `request.state.principal` and `request.client`
unfoldable pub principal_key : Option Principal → Option String → String
principal_key none client_host = host_key client_host
principal_key (some p) client_host =
    if p.authentication_enabled then "principal:" ++ p.id else host_key client_host

-- The header `Retry-After` of a 429, in whole seconds; `none` where the request goes on.
unfoldable pub retry_header : Limits → Option ℕ → Option ℕ
retry_header limits none = none
retry_header limits (some retry_after) = some (retry_after / limits.ticks_per_second + 1)

-- not settings.rate_limit_enabled or request.url.path in _EXEMPT_PATHS
abbrev pub is_exempt : Limits → Request → Bool
is_exempt limits request = not limits.enabled || str_eq request.path "/api/health"

unfoldable pub enforce_rate_limit :
    Limits → ℕ → Option Principal → Request → Windows → Windows × Option ℕ
unfolding retry_header
enforce_rate_limit limits now principal request windows =
    if is_exempt limits request
    then (windows, none)
    else let (windows', retry_after) =
        check limits.requests limits.window now (principal_key principal request.client_host)
          windows in
      (windows', retry_header limits retry_after)

pub data Response : Type 0 where
  -- the route's handler runs
  passed : Principal → Response
  refused : Outcome → Response
  -- 429, with its `Retry-After`
  limited : ℕ → Response

abbrev pub respond : Principal → Option ℕ → Response
respond p none = passed p
respond p (some seconds) = limited seconds

-- The dependencies in their order; an exception of the first keeps the second from running.
module _ (sha256 : String → String) where
  abbrev after_authorize :
      Limits → ℕ → Request → Windows → Option Principal → Outcome → Windows × Response
  after_authorize limits now request windows principal (allowed p) =
      let (windows', seconds) = enforce_rate_limit limits now principal request windows in
      (windows', respond p seconds)
  after_authorize limits now request windows principal o = (windows, refused o)

  unfoldable pub gate : Settings → Limits → ℕ → Request → Windows → Windows × Response
  gate settings limits now request windows =
      let a = authorize_request sha256 settings request in
      after_authorize limits now request windows a.principal a.outcome
