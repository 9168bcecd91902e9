-- ===== src/Access/Window.antt =====
-- What the limiter of backend/reversing_lab/api/rate_limit.py promises about one key.
use reversing_lab.Prelude.{
  ℕ, suc, ◌+◌, ◌-◌, ◌*◌, ◌≤◌, ◌<◌, String, ◌≡◌, ◌↔◌, inl, inr, refl, Option, none, some, List, [],
  ◌∷◌, arith, if◌then◌else◌, eq_iff, str_eq, Bool-cases, All, min, length, dec_lt,
}
use reversing_lab.Prelude.Dict.{lookup, lookup-insert}
use reversing_lab.Access.Limiter.{Hits, Windows, hit, check, serve}

-- One key on its own: its entry and the answers at the times of its calls.
unfoldable pub serve_key : ℕ → ℕ → List ℕ → Option Hits → Option Hits × List (Option ℕ)
serve_key limit window [] entry = (entry, [])
serve_key limit window (now ∷ times) entry =
    let (entry', answer) = hit limit window now entry in
    let (entry'', answers) = serve_key limit window times (some entry') in
    (entry'', answer ∷ answers)

-- The times at which a key is called.
abbrev pub times_of : String → List (ℕ × String) → List ℕ
times_of key [] = []
times_of key ((now, k) ∷ calls) =
    let rest = times_of key calls in if str_eq k key then now ∷ rest else rest

-- The answers that a key gets.
abbrev pub answers_of : String → List (ℕ × String) → List (Option ℕ) → List (Option ℕ)
answers_of key [] answers = []
answers_of key ((now, k) ∷ calls) [] = []
answers_of key ((now, k) ∷ calls) (a ∷ answers) =
    let rest = answers_of key calls answers in if str_eq k key then a ∷ rest else rest

-- The allowed calls among the answers.
abbrev pub allowed : List (Option ℕ) → ℕ
allowed [] = 0
allowed (none ∷ answers) = suc (allowed answers)
allowed (some _ ∷ answers) = allowed answers

module _ (limit window : ℕ) where
  pub lookup-check :
      (now : ℕ) (key other : String) (windows : Windows)
      → lookup other (check limit window now key windows).0 ≡ (
          if str_eq key other
          then some (hit limit window now (lookup key windows)).0
          else lookup other windows)
  unfolding check
  lookup-check now key other windows = lookup-insert key other _ windows

  pub answer-check :
      (now : ℕ) (key : String) (windows : Windows)
      → (check limit window now key windows).1 ≡ (hit limit window now (lookup key windows)).1
  unfolding check
  answer-check now key windows = refl

  -- Keys do not disturb one another: in any history of calls, the answers that a key gets and the entry
  -- that it ends with are those of its own calls alone.
  pub serve-eq-serve_key :
      (key : String) (calls : List (ℕ × String)) (windows : Windows)
      → (answers_of key calls (serve limit window calls windows).1
          ≡ (serve_key limit window (times_of key calls) (lookup key windows)).1)
        × (lookup key (serve limit window calls windows).0
            ≡ (serve_key limit window (times_of key calls) (lookup key windows)).0)
  unfolding serve serve_key
  serve-eq-serve_key key [] windows = (refl, refl)
  serve-eq-serve_key key ((now, k) ∷ calls) windows =
      let ih = serve-eq-serve_key key calls (check limit window now k windows).0 in
      let l = lookup-check now k key windows in
      elim (Bool-cases (str_eq k key)) [
        | inl same ↦
            let same_key = (eq_iff k key).0 same in
            ground (arith, ih.0, ih.1, l, same, same_key, answer-check now k windows)
        | inr other ↦ ground (arith, ih.0, ih.1, l, other)
      ]

  module _ (some_window : 0 < window) where
    hit_open :
        (now start count : ℕ)
        → now < start + window
        → count < limit
        → hit limit window now (some (start, count)) ≡ ((start, count + 1), none)
    unfolding hit
    hit_open now start count w c = ground arith

    hit_full :
        (now start count : ℕ)
        → now < start + window
        → limit ≤ count
        → hit limit window now (some (start, count)) ≡ ((start, count), some (window + start - now))
    unfolding hit
    hit_full now start count w c = ground arith

    hit_expired :
        (now start count : ℕ)
        → start + window ≤ now
        → hit limit window now (some (start, count)) ≡ hit limit window now (some (now, 0))
    unfolding hit
    hit_expired now start count w = ground arith

    hit_new : (now : ℕ) → hit limit window now none ≡ hit limit window now (some (now, 0))
    unfolding hit
    hit_new now = ground arith

    -- Within one window of an entry the allowed calls are as many as there are, up to what is left.
    pub allowed_within :
        (times : List ℕ) (start count : ℕ)
        → All (λ now. now < start + window) times
        → allowed (serve_key limit window times (some (start, count))).1
          ≡ min (limit - count) (length times)
    unfolding serve_key
    allowed_within [] start count w = omega arith
    allowed_within (now ∷ times) start count w = elim (dec_lt count limit) [
      | yes less ↦
          ground
            (arith, hit_open now start count w.0 less, allowed_within times start (count + 1) w.1)
      | no full ↦
          ground (
            arith,
            hit_full now start count w.0 (omega arith),
            allowed_within times start count w.1,
          )
    ]

    allowed_fresh :
        (now : ℕ) (times : List ℕ) (t : ℕ)
        → t ≤ now
        → All (λ u. (t ≤ u) × (u < t + window)) times
        → allowed (serve_key limit window times (some (now, 0))).1 ≤ limit
    allowed_fresh now times t h w = omega (arith, allowed_within times now 0 (later times w))
      where
        later :
            (us : List ℕ)
            → All (λ u. (t ≤ u) × (u < t + window)) us
            → All (λ u. u < now + window) us
        later [] inside = tt
        later (u ∷ us) inside = (omega arith, later us inside.1)

    allowed_from :
        (times : List ℕ) (start count t : ℕ)
        → All (λ u. (t ≤ u) × (u < t + window)) times
        → allowed (serve_key limit window times (some (start, count))).1 ≤ (limit - count) + limit
    unfolding serve_key
    allowed_from [] start count t w = omega arith
    allowed_from (now ∷ times) start count t w = elim (dec_lt now (start + window)) [
      | yes inside ↦ elim (dec_lt count limit) [
        | yes less ↦ ground (
          arith,
          hit_open now start count inside less,
          allowed_from times start (count + 1) t w.1,
        )
        | no full ↦ ground (
          arith,
          hit_full now start count inside (omega arith),
          allowed_from times start count t w.1,
        )
      ]
      | no over ↦
          rw (hit_expired now start count (omega arith))
            (omega (arith, allowed_fresh now (now ∷ times) t w.0.0 w))
    ]

    -- Whatever a key's entry is, in a stretch of time no longer than a window it is allowed at most
    -- twice the limit: a fixed window lets a burst straddle its end, and no more.
    pub allowed_in_stretch :
        (times : List ℕ) (entry : Option Hits) (t : ℕ)
        → All (λ u. (t ≤ u) × (u < t + window)) times
        → allowed (serve_key limit window times entry).1 ≤ 2 * limit
    unfolding serve_key
    allowed_in_stretch times (some e) t w = omega (arith, allowed_from times e.0 e.1 t w)
    allowed_in_stretch [] none t w = omega arith
    allowed_in_stretch (now ∷ times) none t w =
        rw (hit_new now) (omega (arith, allowed_fresh now (now ∷ times) t w.0.0 w))

    -- A refusal's number of ticks is exact: where some calls are allowed in a window, a later call of
    -- the key is allowed, if none comes between, exactly when it is at least so many ticks later.
    pub retry_after_exact :
        (now later r : ℕ) (entry : Option Hits) (e : Hits)
        → 0 < limit
        → hit limit window now entry ≡ (e, some r)
        → now ≤ later
        → ((hit limit window later (some e)).1 ≡ none) ↔ (now + r ≤ later)
    unfolding hit
    retry_after_exact now later r none e l h n = ground arith
    retry_after_exact now later r (some f) e l h n = ground arith
