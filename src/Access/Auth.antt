-- ===== src/Access/Auth.antt =====
-- backend/reversing_lab/api/auth.py: who a request is made by, and what that principal may see. The
-- digest (`hashlib.sha256(...).hexdigest()`) is a parameter.
use Prim.Native.Char.{code}
use reversing_lab.Prelude.{
  ℕ, ◌+◌, String, Bool, true, false, not, ◌&&◌, ◌||◌, Option, none, some, List, [], ◌∷◌,
  if◌then◌else◌, leb, ◌==◌, str_eq,
}
use reversing_lab.Prelude.Text.{text_length}
use reversing_lab.Access.Keys.{rpartition}

pub record Principal : Type 0 where
  pub id : String
  pub role : String
  pub authentication_enabled : Bool

-- settings.auth_mode
pub data AuthMode : Type 0 where
  disabled api_key : AuthMode

pub record Settings : Type 0 where
  pub auth_mode : AuthMode
  pub auth_api_key_hashes : List (String × String)

-- The parsed header `Authorization: <scheme> <credentials>`.
pub record Credentials : Type 0 where
  pub scheme : String
  pub credentials : String

pub record Request : Type 0 where
  pub path : String
  pub method : String
  pub client_host : Option String
  pub authorization : Option Credentials

pub data Outcome : Type 0 where
  allowed : Principal → Outcome
  -- 401, "A valid bearer API key is required."
  key_required : Outcome
  -- 401, "Bearer API key is invalid."
  key_invalid : Outcome
  -- 403
  forbidden : Outcome
  -- 500, a descriptor with no colon
  broken_descriptor : Outcome

-- path in _PUBLIC_PATHS
abbrev pub is_public : String → Bool
is_public path =
    str_eq path "/api/health" || str_eq path "/api/health/ready" || str_eq path "/api/metrics"

-- method in _READ_METHODS
abbrev pub is_read : String → Bool
is_read method = str_eq method "GET" || str_eq method "HEAD" || str_eq method "OPTIONS"

abbrev lower : ℕ → ℕ
lower c = if leb b'A' c && leb c b'Z' then c + 32 else c

-- text.lower() == expected, for an `expected` in lower case
unfoldable pub lower_eq : String → String → Bool
lower_eq String.[] String.[] = true
lower_eq String.[] (String.◌∷◌ d t) = false
lower_eq (String.◌∷◌ c s) String.[] = false
lower_eq (String.◌∷◌ c s) (String.◌∷◌ d t) = (lower (code c) == code d) && lower_eq s t

-- The credentials that get as far as the lookup of the key.
unfoldable pub is_bearer : Credentials → Bool
is_bearer c = lower_eq c.scheme "bearer" && leb (text_length c.credentials) 4096

-- What `_match_principal` returns, or the error of its unpacking.
pub data Match : Type 0 where
  no_match : Match
  matched : Principal → Match
  unpack_error : Match

abbrev pub principal_of : Option (String × String) → Match
principal_of none = unpack_error
principal_of (some parts) =
    matched (record { id = parts.0; role = parts.1; authentication_enabled = true })

-- The loop of `_match_principal`: a later hit replaces an earlier one, an error ends it.
unfoldable pub match_from : Match → String → List (String × String) → Match
match_from unpack_error candidate items = unpack_error
match_from m candidate [] = m
match_from m candidate ((expected, descriptor) ∷ items) =
    match_from (if str_eq candidate expected then principal_of (rpartition descriptor) else m)
      candidate items

-- `request.state.principal`, and the result or the exception.
pub record Authorized : Type 0 where
  pub principal : Option Principal
  pub outcome : Outcome

abbrev pub admit : Principal → Authorized
admit p = record { principal = some p; outcome = allowed p }

abbrev pub refuse : Outcome → Authorized
refuse o = record { principal = none; outcome = o }

abbrev pub local_principal : Principal
local_principal = record { id = "local"; role = "admin"; authentication_enabled = false }

abbrev pub public_principal : Principal
public_principal = record { id = "public"; role = "viewer"; authentication_enabled = true }

-- After the match: a viewer may only read.
unfoldable pub admit_match : String → Match → Authorized
admit_match method no_match = refuse key_invalid
admit_match method unpack_error = refuse broken_descriptor
admit_match method (matched p) = record {
  principal = some p;
  outcome = if str_eq p.role "viewer" && not (is_read method) then forbidden else allowed p;
}

module _ (sha256 : String → String) where
  unfoldable pub match_principal : List (String × String) → String → Match
  unfolding match_from
  match_principal keys raw_key = match_from no_match (sha256 raw_key) keys

  unfoldable pub authorize_key : Settings → Request → Option Credentials → Authorized
  authorize_key settings request none = refuse key_required
  authorize_key settings request (some c) =
      if is_bearer c
      then admit_match request.method (match_principal settings.auth_api_key_hashes c.credentials)
      else refuse key_required

  authorize_mode : AuthMode → Settings → Request → Authorized
  unfolding authorize_key
  authorize_mode disabled settings request = admit local_principal
  authorize_mode api_key settings request =
      if is_public request.path
      then admit public_principal
      else authorize_key settings request request.authorization

  unfoldable pub authorize_request : Settings → Request → Authorized
  unfolding authorize_mode
  authorize_request settings request = authorize_mode settings.auth_mode settings request

-- The owner that rows are written for, and whether other owners' rows are visible.
unfoldable pub resource_scope : Principal → String × Bool
resource_scope p =
    if p.authentication_enabled then (p.id, str_eq p.role "admin") else ("local", true)
