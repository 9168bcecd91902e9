-- ===== src/Access/Tests.antt =====
-- Runs of the model, and each theorem at an input.
use reversing_lab.Prelude.{
  ◌+◌, ◌↔◌, ℕ, ◌*◌, ◌≤◌, ◌≡◌, ◌≢◌, ◌⊎◌, String, refl, true, none, some, List, [], ◌∷◌, arith,
}
use reversing_lab.Prelude.Dict.{lookup, insert}
use reversing_lab.Access.Keys.{
  rpartition, is_digest, is_descriptor, is_principal_id, all_characters, validate_api_key_hashes,
  bad_descriptor,
}
use reversing_lab.Access.Auth.{
  Principal, disabled, api_key, Settings, Request, allowed, lower_eq, is_bearer, match_principal,
  match_from, authorize_key, admit_match, authorize_request, resource_scope,
}
use reversing_lab.Access.Roles.{IsDict, Admission, allowed_by_key, unrestricted_needs_admin}
use reversing_lab.Access.Limiter.{Windows, hit, check, serve}
use reversing_lab.Access.Window.{
  serve_key, times_of, answers_of, serve-eq-serve_key, allowed as count_allowed, allowed_in_stretch,
  retry_after_exact,
}
use reversing_lab.Access.Gate.{Limits, principal_key, host_key, enforce_rate_limit, gate}
use reversing_lab.Access.Gate.Keys.{public_paths_share_key, principal_key-ne-host_key}
use reversing_lab.Access.Gate.Waiting.{waiting_suffices}

-- A digest for the tests: of a fixed key, and of any other.
abbrev digest_one : String
digest_one = "0123456789abcdef0123456789abcdef0123456789abcdef0123456789abcdef"

abbrev sha256 : String → String
sha256 key = digest_one

abbrev keys : List (String × String)
keys = (digest_one, "lab:ann:admin") ∷ []

abbrev good_keys : List (String × String)
good_keys = (digest_one, "ann:admin") ∷ []

split : rpartition "lab:ann:admin" ≡ some ("lab:ann", "admin")
unfolding rpartition
split = refl

-- A colon within the principal's part is not accepted by the configuration.
colon_refused : validate_api_key_hashes keys ≡ some bad_descriptor
unfolding validate_api_key_hashes is_digest is_descriptor is_principal_id all_characters
colon_refused = refl

accepted : validate_api_key_hashes good_keys ≡ none
unfolding validate_api_key_hashes is_digest is_descriptor is_principal_id all_characters
accepted = refl

abbrev on : Settings
on = record { auth_mode = api_key; auth_api_key_hashes = good_keys }

abbrev request : Request
request = record {
  path = "/api/jobs";
  method = "POST";
  client_host = some "10.0.0.1";
  authorization = some (record { scheme = "Bearer"; credentials = "secret" });
}

abbrev probe : Request
probe = record request { path = "/api/metrics"; authorization = none }

abbrev other_probe : Request
other_probe = record probe { path = "/api/health/ready"; client_host = some "10.0.0.2" }

abbrev ann : Principal
ann = record { id = "ann"; role = "admin"; authentication_enabled = true }

let_in : (authorize_request sha256 on request).outcome ≡ allowed ann
unfolding authorize_request authorize_key is_bearer lower_eq match_principal match_from rpartition
    admit_match
let_in = refl

one_key : IsDict good_keys
unfolding lookup
one_key = (refl, tt)

allowed_by_key_example : Admission sha256 on request ann
allowed_by_key_example = allowed_by_key sha256 on request ann refl refl one_key let_in

unrestricted_needs_admin_example :
    (api_key ≡ disabled) ⊎ ((ann.role ≡ "admin") × Admission sha256 on request ann)
unfolding resource_scope
unrestricted_needs_admin_example =
    unrestricted_needs_admin sha256 on request ann one_key let_in refl

abbrev calls : List (ℕ × String)
calls = (1, "a") ∷ (2, "b") ∷ (3, "a") ∷ (4, "a") ∷ (11, "a") ∷ []

-- Two calls in ten ticks: the third of "a" waits for 7 more ticks.
answers : (serve 2 10 calls []).1 ≡ none ∷ none ∷ none ∷ some 7 ∷ none ∷ []
unfolding serve check lookup insert
answers = refl

serve-eq-serve_key_example :
    (answers_of "a" calls (serve 2 10 calls []).1
      ≡ (serve_key 2 10 (times_of "a" calls) (lookup "a" [])).1)
    × (lookup "a" (serve 2 10 calls []).0 ≡ (serve_key 2 10 (times_of "a" calls) (lookup "a" [])).0)
serve-eq-serve_key_example = serve-eq-serve_key 2 10 "a" calls []

abbrev burst : List ℕ
burst = 8 ∷ 9 ∷ 11 ∷ 12 ∷ 13 ∷ []

-- A burst over the end of a window gets twice the limit.
straddles : count_allowed (serve_key 2 10 burst (some (1, 0))).1 ≡ 4
unfolding serve_key hit
straddles = refl

allowed_in_stretch_example : count_allowed (serve_key 2 10 burst (some (1, 0))).1 ≤ 2 * 2
allowed_in_stretch_example =
    allowed_in_stretch 2 10 (omega arith) burst (some (1, 0)) 8 (omega arith)

abbrev limits : Limits
limits = record { enabled = true; requests = 2; window = 10; ticks_per_second = 4 }

public_paths_share_key_example :
    gate sha256 on limits 5 probe [] ≡ gate sha256 on limits 5 other_probe []
public_paths_share_key_example =
    public_paths_share_key sha256 on limits 5 probe other_probe [] refl refl refl refl refl

principal_key-ne-host_key_example : principal_key (some ann) none ≢ host_key (some "ann")
principal_key-ne-host_key_example = principal_key-ne-host_key ann none (some "ann") refl

abbrev before : Windows
before = ("principal:ann", (1, 2)) ∷ []

waiting_suffices_example : (enforce_rate_limit limits 12 (some ann) request before).1 ≡ none
unfolding enforce_rate_limit principal_key check lookup insert
waiting_suffices_example =
    waiting_suffices limits 4 12 2 (some ann) request before before (1, 2) (omega arith)
      (omega arith) (omega arith) refl refl (omega arith)

retry_after_exact_example : ((hit 2 10 11 (some (1, 2))).1 ≡ none) ↔ (4 + 7 ≤ 11)
unfolding hit
retry_after_exact_example =
    retry_after_exact 2 10 (omega arith) 4 11 7 (some (1, 2)) (1, 2) (omega arith) refl
      (omega arith)
