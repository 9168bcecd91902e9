-- ===== src/Challenges/Answers.antt =====
-- What `verify` of backend/reversing_lab/challenge/registry.py answers to a submission.
use mathlib.Core.Path.{subst}
use reversing_lab.Prelude.{
  ◌≡◌, ◌↔◌, sym, ap, String, true, false, some, List, str_eq, arith, eq_iff, Bool-cases,
}
use reversing_lab.Prelude.Dict.{lookup}
use reversing_lab.Challenges.{
  Challenge, done, type_error, get, trimmed, is_ascii, compare_digest, result_of, with_digest,
  with_challenge, known, verify,
}

compare_cases :
    (a b slug : String)
    → is_ascii b ≡ true
    → ((with_digest slug (compare_digest a b) ≡ done (result_of slug true)) ↔ (a ≡ b))
      × ((with_digest slug (compare_digest a b) ≡ type_error) ↔ (is_ascii a ≡ false))
unfolding compare_digest
compare_cases a b slug h =
    ground (arith, h, eq_iff a b, Bool-cases (is_ascii a), Bool-cases (str_eq a b))

verify_found :
    (by_slug : List (String × Challenge)) (slug submission : String) (c : Challenge)
    → lookup slug by_slug ≡ some c
    → verify by_slug slug submission
      ≡ with_digest slug (compare_digest (trimmed submission) c.answer)
unfolding verify get
verify_found by_slug slug submission c found =
    ap (λ o. with_challenge slug submission (known slug o)) found

-- For a challenge with an ASCII answer, a submission is correct exactly if it is the answer once its
-- edges are trimmed, and `verify` raises a `TypeError` exactly if the trimmed text is not ASCII.
pub verify_exact :
    (by_slug : List (String × Challenge)) (slug submission : String) (c : Challenge)
    → lookup slug by_slug ≡ some c
    → is_ascii c.answer ≡ true
    → ((verify by_slug slug submission ≡ done (result_of slug true))
        ↔ (trimmed submission ≡ c.answer))
      × ((verify by_slug slug submission ≡ type_error) ↔ (is_ascii (trimmed submission) ≡ false))
verify_exact by_slug slug submission c found ascii =
    subst
      (λ v.
        ((v ≡ done (result_of slug true)) ↔ (trimmed submission ≡ c.answer))
        × ((v ≡ type_error) ↔ (is_ascii (trimmed submission) ≡ false)))
      (sym (verify_found by_slug slug submission c found))
      (compare_cases (trimmed submission) c.answer slug ascii)
