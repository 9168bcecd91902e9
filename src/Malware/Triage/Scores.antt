-- ===== src/Malware/Triage/Scores.antt =====
-- The score of indicators in backend/reversing_lab/malware/triage.py, kind by kind.
use reversing_lab.Prelude.{
  ℕ, suc, ◌+◌, ◌*◌, ◌≤◌, ◌≡◌, refl, ap, ◌∙◌, min, String, List, [], ◌∷◌, ◌++◌, if◌then◌else◌,
  str_eq, eq_iff, arith, Bool-cases, inl, inr, if_true, if_false, sym,
}
use reversing_lab.Prelude.Dict.{lookup, insert, lookup-insert}
use reversing_lab.Malware.Model.{IndicatorOfCompromise}
use reversing_lab.Malware.Triage.{ioc_weight, get_or, add_weight, weigh, sum_values}

abbrev pub count_kind : String → List IndicatorOfCompromise → ℕ
count_kind kind [] = 0
count_kind kind (i ∷ indicators) =
    if str_eq i.kind kind then suc (count_kind kind indicators) else count_kind kind indicators

pub weigh-append :
    (xs ys : List IndicatorOfCompromise) (d : List (String × ℕ))
    → weigh (xs ++ ys) d ≡ weigh ys (weigh xs d)
unfolding weigh
weigh-append [] ys d = refl
weigh-append (x ∷ xs) ys d = weigh-append xs ys (add_weight x.kind d)

-- The values after a write, by what stood there.
sum_values-insert :
    (kind : String) (n : ℕ) (d : List (String × ℕ))
    → sum_values (insert kind n d) + get_or 0 kind d ≡ sum_values d + n
unfolding insert lookup
sum_values-insert kind n [] = omega arith
sum_values-insert kind n ((k, v) ∷ d) =
    ground (arith, sum_values-insert kind n d, Bool-cases (str_eq k kind))

get_or-insert :
    (kind other : String) (n : ℕ) (d : List (String × ℕ))
    → get_or 0 other (insert kind n d) ≡ (if str_eq kind other then n else get_or 0 other d)
get_or-insert kind other n d =
    ground (arith, lookup-insert kind other n d, Bool-cases (str_eq kind other))

get_or-add_weight :
    (kind other : String) (d : List (String × ℕ))
    → get_or 0 other (add_weight kind d)
      ≡ (if str_eq kind other then min (get_or 0 kind d + ioc_weight kind) 12 else get_or 0 other d)
unfolding add_weight
get_or-add_weight kind other d =
    get_or-insert kind other (min (get_or 0 kind d + ioc_weight kind) 12) d

pub sum_values-add_weight-le :
    (kind : String) (d : List (String × ℕ))
    → get_or 0 kind d ≤ 12
    → sum_values d ≤ sum_values (add_weight kind d)
unfolding add_weight
sum_values-add_weight-le kind d h =
    omega (arith, sum_values-insert kind (min (get_or 0 kind d + ioc_weight kind) 12) d)

one_more : (g w n : ℕ) → min 12 (min (g + w) 12 + w * n) ≡ min 12 (g + w * suc n)
one_more g w n = ground arith

pub weigh-nil : (d : List (String × ℕ)) → weigh [] d ≡ d
unfolding weigh
weigh-nil d = refl

pub weigh-cons :
    (x : IndicatorOfCompromise) (xs : List IndicatorOfCompromise) (d : List (String × ℕ))
    → weigh (x ∷ xs) d ≡ weigh xs (add_weight x.kind d)
unfolding weigh
weigh-cons x xs d = refl

pub get_or-add_weight-le :
    (kind other : String) (d : List (String × ℕ))
    → get_or 0 other d ≤ 12
    → get_or 0 other (add_weight kind d) ≤ 12
get_or-add_weight-le kind other d h =
    ground (arith, get_or-add_weight kind other d, Bool-cases (str_eq kind other))

weigh-exact :
    (kind : String) (xs : List IndicatorOfCompromise) (d : List (String × ℕ))
    → get_or 0 kind d ≤ 12
    → get_or 0 kind (weigh xs d) ≡ min 12 (get_or 0 kind d + ioc_weight kind * count_kind kind xs)
weigh-exact kind [] d h = ap (get_or 0 kind) (weigh-nil d) ∙ ground arith
weigh-exact kind (x ∷ xs) d h =
    let w = ioc_weight kind in
    let rest =
      ap (get_or 0 kind) (weigh-cons x xs d)
      ∙ weigh-exact kind xs (add_weight x.kind d) (get_or-add_weight-le x.kind kind d h) in
    elim (Bool-cases (str_eq x.kind kind)) [
      | inl same ↦
          let now =
            get_or-add_weight x.kind kind d
            ∙ if_true (str_eq x.kind kind) _ _ same
            ∙ ap (λ k. min (get_or 0 k d + ioc_weight k) 12) ((eq_iff x.kind kind).0 same) in
          rest
          ∙ ap (λ g. min 12 (g + w * count_kind kind xs)) now
          ∙ one_more (get_or 0 kind d) w (count_kind kind xs)
          ∙ ap (λ n. min 12 (get_or 0 kind d + w * n))
              (sym
                (if_true (str_eq x.kind kind) (suc (count_kind kind xs)) (count_kind kind xs) same))
      | inr other ↦
          rest
          ∙ ap (λ g. min 12 (g + w * count_kind kind xs))
              (get_or-add_weight x.kind kind d ∙ if_false (str_eq x.kind kind) _ _ other)
          ∙ ap (λ n. min 12 (get_or 0 kind d + w * n))
              (sym (
                if_false (str_eq x.kind kind) (suc (count_kind kind xs)) (count_kind kind xs)
                  other))
    ]

pub get_or_nothing : (kind : String) → get_or 0 kind [] ≡ 0
unfolding lookup
get_or_nothing kind = refl

-- A kind scores its weight once for each indicator of it, up to its ceiling, in whatever order the
-- indicators stand.
pub weigh_kinds :
    (kind : String) (indicators : List IndicatorOfCompromise)
    → get_or 0 kind (weigh indicators []) ≡ min 12 (ioc_weight kind * count_kind kind indicators)
weigh_kinds kind indicators =
    weigh-exact kind indicators [] (omega (arith, get_or_nothing kind))
    ∙ omega (arith, get_or_nothing kind)
