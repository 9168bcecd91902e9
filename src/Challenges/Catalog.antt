-- ===== src/Challenges/Catalog.antt =====
-- The catalog of backend/reversing_lab/challenge/registry.py holds each class once, in their order.
use mathlib.Core.List.{append_assoc, append-nil}
use Prim.Native.String.{◌++◌ as ◌<>◌}
use reversing_lab.Prelude.{
  ◌≡◌, ◌⊎◌, inl, inr, refl, sym, ap, ◌∙◌, String, Bool, true, false, ◌||◌, Option, none, some, List,
  [], ◌∷◌, ◌++◌, map, str_eq, arith, Option-cases, Bool-cases,
}
use reversing_lab.Prelude.Dict.{lookup, insert, lookup-insert}
use reversing_lab.Challenges.{
  Challenge, done, refused, unless_taken, quoted, register, new_registry, list_views, view_of,
}

-- The items of challenges under their slugs.
abbrev pub items : List Challenge → List (String × Challenge)
items [] = []
items (c ∷ classes) = (c.slug, c) ∷ items classes

insert-missing :
    (key : String) (c : Challenge) (d : List (String × Challenge))
    → lookup key d ≡ none
    → insert key c d ≡ d ++ (key, c) ∷ []
unfolding lookup insert
insert-missing key c [] h = refl
insert-missing key c ((k, v) ∷ d) h =
    ground (arith, h, Bool-cases (str_eq k key), insert-missing key c d)

register-cons :
    (c : Challenge) (classes : List Challenge) (d : List (String × Challenge))
    → register (c ∷ classes) d
      ≡ unless_taken (lookup c.slug d) c.slug (register classes (insert c.slug c d))
unfolding register
register-cons c classes d = refl

register-nil : (d : List (String × Challenge)) → register [] d ≡ done d
unfolding register
register-nil d = refl

abbrev is_there : Option Challenge → Bool
is_there none = false
is_there (some c) = true

-- A slug of the challenges is a key.
abbrev clashes : List (String × Challenge) → List Challenge → Bool
clashes d [] = false
clashes d (c ∷ classes) = is_there (lookup c.slug d) || clashes d classes

abbrev in_slugs : String → List Challenge → Bool
in_slugs slug [] = false
in_slugs slug (c ∷ classes) = str_eq slug c.slug || in_slugs slug classes

-- Two of the challenges have one slug.
abbrev pub has_repeats : List Challenge → Bool
has_repeats [] = false
has_repeats (c ∷ classes) = in_slugs c.slug classes || has_repeats classes

is_there-insert :
    (key other : String) (c : Challenge) (d : List (String × Challenge))
    → is_there (lookup other (insert key c d)) ≡ (str_eq key other || is_there (lookup other d))
is_there-insert key other c d =
    ap is_there (lookup-insert key other c d) ∙ ground (arith, Bool-cases (str_eq key other))

clashes-insert :
    (key : String) (c : Challenge) (d : List (String × Challenge)) (classes : List Challenge)
    → clashes (insert key c d) classes ≡ (in_slugs key classes || clashes d classes)
clashes-insert key c d [] = refl
clashes-insert key c d (x ∷ classes) = ground (
  arith,
  is_there-insert key x.slug c d,
  clashes-insert key c d classes,
  Bool-cases (str_eq key x.slug),
  Bool-cases (is_there (lookup x.slug d)),
)

register_cases :
    (classes : List Challenge) (d : List (String × Challenge))
    → ((register classes d ≡ done (d ++ items classes))
        × ((clashes d classes || has_repeats classes) ≡ false))
      ⊎ ((message : String) × (register classes d ≡ refused message)
          × ((clashes d classes || has_repeats classes) ≡ true))
register_cases [] d = inl (register-nil d ∙ ap done (sym (append-nil d)), refl)
register_cases (c ∷ classes) d =
    let slug = c.slug in
    let rest = register classes (insert slug c d) in
    elim (Option-cases (lookup slug d)) [
      | inr (c', there) ↦ inr (
        "Duplicate challenge slug: " <> quoted slug,
        register-cons c classes d ∙ ap (λ o. unless_taken o slug rest) there,
        ground (arith, ap is_there there),
      )
      | inl missing ↦
          let start = register-cons c classes d ∙ ap (λ o. unless_taken o slug rest) missing in
          let clash = clashes-insert slug c d classes in
          elim (register_cases classes (insert slug c d)) [
            | inl made ↦ inl (
              start
                  ∙ made.0
                  ∙ ap (λ t. done (t ++ items classes)) (insert-missing slug c d missing)
                  ∙ ap done (append_assoc d ((slug, c) ∷ []) (items classes)),
              ground (arith, made.1, clash, ap is_there missing),
            )
            | inr (message, stopped, why) ↦
                inr (message, start ∙ stopped, ground (arith, why, clash, ap is_there missing))
          ]
    ]

nothing_clashes : (classes : List Challenge) → clashes [] classes ≡ false
unfolding lookup
nothing_clashes [] = refl
nothing_clashes (c ∷ classes) = nothing_clashes classes

list_views-items : (classes : List Challenge) → list_views (items classes) ≡ map view_of classes
unfolding list_views
list_views-items [] = refl
list_views-items (c ∷ classes) = λ i. view_of c ∷ list_views-items classes i

-- A catalog is refused exactly if two of its classes have one slug; otherwise it lists every class once
-- and in their order.
pub new_registry_exact :
    (classes : List Challenge)
    → ((by_slug : List (String × Challenge)) × (new_registry classes ≡ done by_slug)
        × (list_views by_slug ≡ map view_of classes)
        × (has_repeats classes ≡ false))
      ⊎ ((message : String) × (new_registry classes ≡ refused message)
          × (has_repeats classes ≡ true))
unfolding new_registry
new_registry_exact classes =
    let empty = nothing_clashes classes in
    elim (register_cases classes []) [
      | inl made ↦
          inl (items classes, made.0, list_views-items classes, ground (arith, made.1, empty))
      | inr (message, stopped, why) ↦ inr (message, stopped, ground (arith, why, empty))
    ]
