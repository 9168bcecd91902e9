-- ===== src/Access/Gate/Keys.antt =====
-- Which requests share a counter of backend/reversing_lab/api/rate_limit.py.
use Prim.Native.String.{◌++◌}
use Prim.Native.Char.{code}
use text.Mathlib.TextLemmas.{append_cancel_left, cons-append}
use reversing_lab.Prelude.{
  ℕ, String, ◌≡◌, ◌≢◌, refl, ap, sym, ◌∙◌, true, Option, none, some, arith, str_eq, false,
}
use reversing_lab.Access.Auth.{
  Principal, Settings, Request, api_key, is_public, authorize_request, public_principal, admit,
}
use reversing_lab.Access.Limiter.{Windows}
use reversing_lab.Access.Gate.{Limits, principal_key, host_key, enforce_rate_limit, gate}

module _ (sha256 : String → String) where
  authorize_public :
      (settings : Settings) (request : Request)
      → settings.auth_mode ≡ api_key
      → is_public request.path ≡ true
      → authorize_request sha256 settings request ≡ admit public_principal
  unfolding authorize_request
  authorize_public settings request mode public = ground arith

  -- With keys in force all requests on the public paths but the exempt /api/health count under one key,
  -- whatever path they name and client they come from: what the gate does for one is what it does for
  -- any other.
  pub public_paths_share_key :
      (settings : Settings) (limits : Limits) (now : ℕ) (first second : Request) (windows : Windows)
      → settings.auth_mode ≡ api_key
      → is_public first.path ≡ true
      → is_public second.path ≡ true
      → str_eq first.path "/api/health" ≡ false
      → str_eq second.path "/api/health" ≡ false
      → gate sha256 settings limits now first windows
        ≡ gate sha256 settings limits now second windows
  unfolding gate enforce_rate_limit principal_key
  public_paths_share_key settings limits now first second windows mode public_first public_second
        counted_first counted_second =
      ground (
        arith,
        counted_first,
        counted_second,
        authorize_public settings first mode public_first,
        authorize_public settings second mode public_second,
      )

own_key :
    (p : Principal) (host : Option String)
    → p.authentication_enabled ≡ true
    → principal_key (some p) host ≡ "principal:" ++ p.id
unfolding principal_key
own_key p host on = rw on refl

-- Two principals with keys of their own never share a counter.
pub principal_key-injective :
    (p q : Principal) (a b : Option String)
    → p.authentication_enabled ≡ true
    → q.authentication_enabled ≡ true
    → principal_key (some p) a ≡ principal_key (some q) b
    → p.id ≡ q.id
principal_key-injective p q a b ep eq e =
    append_cancel_left "principal:" p.id q.id (sym (own_key p a ep) ∙ e ∙ own_key q b eq)

abbrev first : String → ℕ
first String.[] = 0
first (String.◌∷◌ c s) = code c

-- No client host shares a counter with a principal.
pub principal_key-ne-host_key :
    (p : Principal) (a b : Option String)
    → p.authentication_enabled ≡ true
    → principal_key (some p) a ≢ host_key b
principal_key-ne-host_key p a none ep e =
    omega (arith, ap first (sym (cons-append "p" "rincipal:" p.id) ∙ sym (own_key p a ep) ∙ e))
principal_key-ne-host_key p a (some host) ep e = omega (
  arith,
  ap first (
      sym (cons-append "p" "rincipal:" p.id)
      ∙ sym (own_key p a ep)
      ∙ e
      ∙ cons-append "h" "ost:" host),
)
