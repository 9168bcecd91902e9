-- ===== src/Malware/Triage/Monotone.antt =====
-- More evidence never lowers a verdict of backend/reversing_lab/malware/triage.py.
use reversing_lab.Prelude.{
  ℕ, ◌+◌, ◌≤◌, ◌≡◌, ap, String, Bool, ◌||◌, Option, List, [], ◌∷◌, ◌++◌, arith, Bool-cases,
}
use reversing_lab.Malware.Model.{
  CapabilityMatch, IndicatorOfCompromise, RuleMatch, GhidraTriage, ThreatVerdict, benign, low_risk,
  suspicious, likely_malicious,
}
use reversing_lab.Malware.Triage.{
  get_or, add_weight, weigh, sum_values, score_iocs, sum_severities, sum_rules, risk_score,
  verdict_for, Packing, triage_of,
}
use reversing_lab.Malware.Triage.Scores.{
  weigh-append, get_or_nothing, weigh-nil, weigh-cons, sum_values-add_weight-le,
  get_or-add_weight-le,
}

abbrev pub rank : ThreatVerdict → ℕ
rank benign = 0
rank low_risk = 1
rank suspicious = 2
rank likely_malicious = 3

-- No kind is above its ceiling.
abbrev Capped : List (String × ℕ) → Type 0
Capped d = (kind : String) → get_or 0 kind d ≤ 12

Capped-weigh :
    (xs : List IndicatorOfCompromise) (d : List (String × ℕ)) → Capped d → Capped (weigh xs d)
Capped-weigh [] d c kind = omega (arith, ap (get_or 0 kind) (weigh-nil d), c kind)
Capped-weigh (x ∷ xs) d c kind = omega (
  arith,
  ap (get_or 0 kind) (weigh-cons x xs d),
  Capped-weigh xs (add_weight x.kind d) (λ k. get_or-add_weight-le x.kind k d (c k)) kind,
)

sum_values-weigh-le :
    (xs : List IndicatorOfCompromise) (d : List (String × ℕ))
    → Capped d
    → sum_values d ≤ sum_values (weigh xs d)
sum_values-weigh-le [] d c = omega (arith, ap sum_values (weigh-nil d))
sum_values-weigh-le (x ∷ xs) d c = omega (
  arith,
  ap sum_values (weigh-cons x xs d),
  sum_values-add_weight-le x.kind d (c x.kind),
  sum_values-weigh-le xs (add_weight x.kind d) (λ k. get_or-add_weight-le x.kind k d (c k)),
)

score_iocs-le : (xs ys : List IndicatorOfCompromise) → score_iocs xs ≤ score_iocs (xs ++ ys)
unfolding score_iocs
score_iocs-le xs ys = omega (
  arith,
  ap sum_values (weigh-append xs ys []),
  sum_values-weigh-le ys (weigh xs []) (Capped-weigh xs [] (λ k. omega (arith, get_or_nothing k))),
)

sum_severities-append :
    (xs ys : List CapabilityMatch)
    → sum_severities (xs ++ ys) ≡ sum_severities xs + sum_severities ys
sum_severities-append [] ys = omega arith
sum_severities-append (x ∷ xs) ys = omega (arith, sum_severities-append xs ys)

sum_rules-append : (xs ys : List RuleMatch) → sum_rules (xs ++ ys) ≡ sum_rules xs + sum_rules ys
sum_rules-append [] ys = omega arith
sum_rules-append (x ∷ xs) ys = omega (arith, sum_rules-append xs ys)

verdict_for-le : (a b : ℕ) → a ≤ b → rank (verdict_for a) ≤ rank (verdict_for b)
unfolding verdict_for
verdict_for-le a b h = ground arith

risk_score-le :
    (c c' : List CapabilityMatch) (i i' : List IndicatorOfCompromise) (m m' : List RuleMatch)
    (packed packed' : Bool)
    → risk_score c i m packed ≤ risk_score (c ++ c') (i ++ i') (m ++ m') (packed || packed')
unfolding risk_score
risk_score-le c c' i i' m m' packed packed' = ground (
  arith,
  score_iocs-le i i',
  sum_severities-append c c',
  sum_rules-append m m',
  Bool-cases packed,
  Bool-cases packed',
)

risk_score-most :
    (c : List CapabilityMatch) (i : List IndicatorOfCompromise) (m : List RuleMatch) (packed : Bool)
    → risk_score c i m packed ≤ 100
unfolding risk_score
risk_score-most c i m packed = ground arith

-- A report with further capabilities, indicators and rules at the end, and packed if the first was, has
-- no lower score and no lower verdict, the score is at most 100, and neither depends on what Ghidra
-- reports.
pub triage_of-le :
    (sha256 : String) (c c' : List CapabilityMatch) (i i' : List IndicatorOfCompromise)
    (m m' : List RuleMatch) (packing : Packing) (packed' : Bool)
    (ghidra ghidra' : Option GhidraTriage)
    → let less = triage_of sha256 c i m packing ghidra in
      let more =
        triage_of sha256
          (c ++ c')
          (i ++ i')
          (m ++ m')
          record packing { likely_packed = packing.likely_packed || packed' }
          ghidra' in
      (less.risk_score ≤ more.risk_score)
      × (more.risk_score ≤ 100)
      × (rank less.verdict ≤ rank more.verdict)
unfolding triage_of
triage_of-le sha256 c c' i i' m m' packing packed' ghidra ghidra' =
    let up = risk_score-le c c' i i' m m' packing.likely_packed packed' in
    (
      up,
      risk_score-most (c ++ c') (i ++ i') (m ++ m') (packing.likely_packed || packed'),
      verdict_for-le _ _ up,
    )
