-- ===== src/Access/Roles.antt =====
-- What `authorize_request` and `resource_scope` of backend/reversing_lab/api/auth.py promise.
use reversing_lab.Prelude.{
  String, ◌≡◌, ◌≢◌, ◌⊎◌, inl, inr, refl, sym, ◌∙◌, true, false, Option, none, some, List, [], ◌∷◌,
  arith, eq_iff, str_eq, Bool-cases, Option-cases,
}
use reversing_lab.Prelude.Dict.{lookup}
use reversing_lab.Access.Keys.{
  rpartition, is_descriptor, is_principal_id, is_role, validate_api_key_hashes,
}
use reversing_lab.Access.Auth.{
  Principal, AuthMode, disabled, api_key, Settings, Credentials, Request, allowed,
  broken_descriptor, is_public, is_read, is_bearer, Match, no_match, matched, unpack_error,
  principal_of, match_from, match_principal, authorize_key, admit_match, authorize_request,
  resource_scope,
}

AuthMode-cases : (m : AuthMode) → (m ≡ disabled) ⊎ (m ≡ api_key)
AuthMode-cases disabled = inl refl
AuthMode-cases api_key = inr refl

-- A dictionary has each key once.
abbrev pub IsDict : List (String × String) → Type 0
IsDict [] = Unit
IsDict ((k, v) ∷ items) = (lookup k items ≡ none) × IsDict items

-- What the entry of a digest comes to.
abbrev pub entry : Option String → Match
entry none = no_match
entry (some descriptor) = principal_of (rpartition descriptor)

module _ (candidate : String) where
  match_from_miss :
      (m : Match) (keys : List (String × String))
      → lookup candidate keys ≡ none
      → match_from m candidate keys ≡ m
  unfolding match_from lookup
  match_from_miss unpack_error keys h = refl
  match_from_miss no_match [] h = refl
  match_from_miss (matched q) [] h = refl
  match_from_miss no_match ((digest, descriptor) ∷ items) h =
      ground
        (arith, eq_iff digest candidate, eq_iff candidate digest, match_from_miss no_match items)
  match_from_miss (matched q) ((digest, descriptor) ∷ items) h =
      ground
        (arith, eq_iff digest candidate, eq_iff candidate digest, match_from_miss (matched q) items)

  match_from-lookup :
      (keys : List (String × String))
      → IsDict keys
      → match_from no_match candidate keys ≡ entry (lookup candidate keys)
  unfolding match_from lookup
  match_from-lookup [] d = refl
  match_from-lookup ((digest, descriptor) ∷ items) d = elim (Bool-cases (str_eq candidate digest)) [
    | inl hit ↦
        let same : digest ≡ candidate = sym ((eq_iff candidate digest).0 hit) in
        let miss = match_from_miss (principal_of (rpartition descriptor)) items (rw same at d.0) in
        ground (arith, hit, (eq_iff digest candidate).1 same, miss)
    | inr miss ↦
        ground
          (arith, eq_iff digest candidate, eq_iff candidate digest, match_from-lookup items d.1)
  ]

module _ (sha256 : String → String) where
  -- For a dictionary of keys the loop over all of them, which never stops early, comes to one lookup
  -- of the digest: its descriptor is the principal, and no entry means no match.
  pub match_principal-eq-lookup :
      (keys : List (String × String)) (raw_key : String)
      → IsDict keys
      → match_principal sha256 keys raw_key ≡ entry (lookup (sha256 raw_key) keys)
  unfolding match_principal
  match_principal-eq-lookup keys raw_key d = match_from-lookup (sha256 raw_key) keys d

  entry-matched :
      (found : Option String) (p : Principal)
      → entry found ≡ matched p
      → (descriptor : String) × (found ≡ some descriptor)
        × (rpartition descriptor ≡ some (p.id, p.role))
        × (p.authentication_enabled ≡ true)
  entry-matched none p h = cc
  entry-matched (some descriptor) p h = elim (Option-cases (rpartition descriptor)) [
    | inl e ↦ ground (arith, e)
    | inr e ↦ (descriptor, refl, ground (arith, e.1), ground (arith, e.1))
  ]

  -- What an admission by key rests on.
  abbrev pub Admission : Settings → Request → Principal → Type 0
  Admission settings request p =
      (c : Credentials) × (descriptor : String) × (request.authorization ≡ some c)
      × (is_bearer c ≡ true)
      × (lookup (sha256 c.credentials) settings.auth_api_key_hashes ≡ some descriptor)
      × (rpartition descriptor ≡ some (p.id, p.role))
      × (p.authentication_enabled ≡ true)
      × ((p.role ≢ "viewer") ⊎ (is_read request.method ≡ true))

  admit_match-allowed :
      (method : String) (m : Match) (p : Principal)
      → (admit_match method m).outcome ≡ allowed p
      → (m ≡ matched p) × ((p.role ≢ "viewer") ⊎ (is_read method ≡ true))
  unfolding admit_match
  admit_match-allowed method no_match p h = cc
  admit_match-allowed method unpack_error p h = cc
  admit_match-allowed method (matched q) p h = elim (Bool-cases (str_eq q.role "viewer")) [
    | inl viewer ↦ (ground (arith, viewer), inr (ground (arith, viewer)))
    | inr other ↦ (
      ground (arith, other),
      inl (λ v. ground (arith, other, eq_iff q.role "viewer", eq_iff p.role "viewer")),
    )
  ]

  authorize_key-allowed :
      (settings : Settings) (request : Request) (o : Option Credentials) (p : Principal)
      → IsDict settings.auth_api_key_hashes
      → request.authorization ≡ o
      → (authorize_key sha256 settings request o).outcome ≡ allowed p
      → Admission settings request p
  unfolding authorize_key
  authorize_key-allowed settings request none p d a h = cc
  authorize_key-allowed settings request (some c) p d a h = elim (Bool-cases (is_bearer c)) [
    | inl bearer ↦
        let h' = rw bearer at h in
        let (m, reads) = admit_match-allowed request.method _ p h' in
        let (descriptor, l, r, on) =
          entry-matched _ p
            (sym (match_principal-eq-lookup settings.auth_api_key_hashes c.credentials d) ∙ m) in
        (c, descriptor, a, bearer, l, r, on, reads)
    | inr other ↦ ground (arith, other)
  ]

  -- With keys in force, and off the public paths, a request is let through only with a bearer key whose
  -- digest has an entry: the principal is that entry's, and if its role is viewer the method reads.
  pub allowed_by_key :
      (settings : Settings) (request : Request) (p : Principal)
      → settings.auth_mode ≡ api_key
      → is_public request.path ≡ false
      → IsDict settings.auth_api_key_hashes
      → (authorize_request sha256 settings request).outcome ≡ allowed p
      → Admission settings request p
  unfolding authorize_request
  allowed_by_key settings request p mode path d h =
      authorize_key-allowed settings request request.authorization p d refl (ground arith)

  lookup-is_descriptor :
      (keys : List (String × String)) (digest descriptor : String)
      → validate_api_key_hashes keys ≡ none
      → lookup digest keys ≡ some descriptor
      → is_descriptor descriptor ≡ true
  unfolding validate_api_key_hashes lookup
  lookup-is_descriptor [] digest descriptor valid l = cc
  lookup-is_descriptor ((k, v) ∷ items) digest descriptor valid l =
      ground (arith, lookup-is_descriptor items digest descriptor)

  is_descriptor_parts :
      (descriptor : String)
      → is_descriptor descriptor ≡ true
      → (parts : String × String) × (rpartition descriptor ≡ some parts)
        × (is_principal_id parts.0 ≡ true)
        × (is_role parts.1 ≡ true)
  unfolding is_descriptor
  is_descriptor_parts descriptor h = elim (Option-cases (rpartition descriptor)) [
    | inl e ↦ ground (arith, e)
    | inr e ↦ (e.0, e.1, ground (arith, e.1), ground (arith, e.1))
  ]

  entry_unbroken :
      (keys : List (String × String)) (digest : String)
      → validate_api_key_hashes keys ≡ none
      → entry (lookup digest keys) ≢ unpack_error
  entry_unbroken keys digest valid e = elim (Option-cases (lookup digest keys)) [
    | inl l ↦ ground (arith, l)
    | inr l ↦
        let (parts, r, i, role) =
          is_descriptor_parts l.0 (lookup-is_descriptor keys digest l.0 valid l.1) in
        ground (arith, l.1, r)
  ]

  authorize_key-unbroken :
      (settings : Settings) (request : Request) (o : Option Credentials)
      → validate_api_key_hashes settings.auth_api_key_hashes ≡ none
      → IsDict settings.auth_api_key_hashes
      → (authorize_key sha256 settings request o).outcome ≢ broken_descriptor
  unfolding authorize_key admit_match
  authorize_key-unbroken settings request none valid d h = cc
  authorize_key-unbroken settings request (some c) valid d h = ground (
    arith,
    match_principal-eq-lookup settings.auth_api_key_hashes c.credentials d,
    entry_unbroken settings.auth_api_key_hashes (sha256 c.credentials) valid,
  )

  -- Keys that the configuration accepts never make a request fail within the server: every descriptor
  -- can be taken apart.
  pub validated_keys_unbroken :
      (settings : Settings) (request : Request)
      → validate_api_key_hashes settings.auth_api_key_hashes ≡ none
      → IsDict settings.auth_api_key_hashes
      → (authorize_request sha256 settings request).outcome ≢ broken_descriptor
  unfolding authorize_request
  validated_keys_unbroken settings request valid d h =
      ground (arith, authorize_key-unbroken settings request request.authorization valid d)

  -- A principal that may see other owners' rows is there only because authentication is off, or holds
  -- a key whose descriptor says admin.
  pub unrestricted_needs_admin :
      (settings : Settings) (request : Request) (p : Principal)
      → IsDict settings.auth_api_key_hashes
      → (authorize_request sha256 settings request).outcome ≡ allowed p
      → (resource_scope p).1 ≡ true
      → (settings.auth_mode ≡ disabled) ⊎ ((p.role ≡ "admin") × Admission settings request p)
  unfolding authorize_request resource_scope
  unrestricted_needs_admin settings request p d h u = elim (AuthMode-cases settings.auth_mode) [
    | inl off ↦ inl off
    | inr on ↦ elim (Bool-cases (is_public request.path)) [
      | inl path ↦
          let viewer : str_eq "viewer" "admin" ≡ false = refl in
          ground (
            arith,
            on,
            path,
            viewer,
            eq_iff p.role "admin",
            eq_iff p.role "viewer",
            eq_iff "viewer" "admin",
          )
      | inr path ↦
          let adm = allowed_by_key settings request p on path d h in
          inr (ground (arith, adm.6, eq_iff p.role "admin"), adm)
    ]
  ]
