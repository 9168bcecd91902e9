-- ===== src/Malware/Triage.antt =====
-- Scores and verdicts: backend/reversing_lab/malware/triage.py. A report is made from the findings of the
-- other modules, which are arguments of `triage_of`.
pub mod Scores
pub mod Monotone
use Prim.Native.String.{◌++◌ as ◌<>◌}
use reversing_lab.Prelude.{
  ℕ, ◌+◌, min, max, String, Bool, true, false, Option, none, some, List, [], ◌∷◌, ◌++◌, length,
  if◌then◌else◌, leb,
}
use reversing_lab.Prelude.Dict.{lookup, insert}
use reversing_lab.Prelude.Text.{decimal}
use reversing_lab.Malware.Model.{
  CapabilityMatch, IndicatorOfCompromise, RuleMatch, GhidraTriage, ThreatVerdict, benign, low_risk,
  suspicious, likely_malicious,
}

abbrev pub severity_weights : List (String × ℕ)
severity_weights = ("info", 0) ∷ ("low", 3) ∷ ("medium", 8) ∷ ("high", 16) ∷ ("critical", 26) ∷ []

abbrev pub rule_weights : List (String × ℕ)
rule_weights = ("info", 0) ∷ ("low", 4) ∷ ("medium", 12) ∷ ("high", 22) ∷ ("critical", 30) ∷ []

abbrev pub ioc_weights : List (String × ℕ)
ioc_weights =
    ("url", 6) ∷ ("ipv4", 5) ∷ ("domain", 4) ∷ ("registry", 3) ∷ ("filepath", 1) ∷ ("email", 2) ∷ []

-- d.get(key, default)
abbrev pub get_or : ℕ → String → List (String × ℕ) → ℕ
get_or default key d = elim (lookup key d) [ none ↦ default | some n ↦ n ]

unfoldable pub ioc_weight : String → ℕ
unfolding lookup
ioc_weight kind = get_or 1 kind ioc_weights

-- The body of the loop of `_score_iocs`.
unfoldable pub add_weight : String → List (String × ℕ) → List (String × ℕ)
unfolding lookup insert ioc_weight
add_weight kind per_kind = insert kind (min (get_or 0 kind per_kind + ioc_weight kind) 12) per_kind

unfoldable pub weigh : List IndicatorOfCompromise → List (String × ℕ) → List (String × ℕ)
unfolding add_weight
weigh [] per_kind = per_kind
weigh (indicator ∷ indicators) per_kind = weigh indicators (add_weight indicator.kind per_kind)

abbrev pub sum_values : List (String × ℕ) → ℕ
sum_values [] = 0
sum_values ((kind, n) ∷ per_kind) = n + sum_values per_kind

unfoldable pub score_iocs : List IndicatorOfCompromise → ℕ
unfolding weigh
score_iocs indicators = sum_values (weigh indicators [])

unfoldable pub verdict_for : ℕ → ThreatVerdict
verdict_for score =
    if leb 60 score
    then likely_malicious
    else (if leb 35 score then suspicious else (if leb 12 score then low_risk else benign))

abbrev pub sum_severities : List CapabilityMatch → ℕ
sum_severities [] = 0
sum_severities (capability ∷ capabilities) =
    get_or 0 capability.severity severity_weights + sum_severities capabilities

abbrev pub sum_rules : List RuleMatch → ℕ
sum_rules [] = 0
sum_rules (fired ∷ matches) = get_or 0 fired.severity rule_weights + sum_rules matches

-- The score of `triage_binary`.
unfoldable pub risk_score :
    List CapabilityMatch → List IndicatorOfCompromise → List RuleMatch → Bool → ℕ
unfolding score_iocs
risk_score capabilities indicators signature_matches likely_packed = max 0 (
    min 100 (
      sum_severities capabilities
      + score_iocs indicators
      + sum_rules signature_matches
      + (if likely_packed then 20 else 0)))

abbrev pub verdict_value : ThreatVerdict → String
verdict_value benign = "benign"
verdict_value low_risk = "low_risk"
verdict_value suspicious = "suspicious"
verdict_value likely_malicious = "likely_malicious"

-- What `_summarize` says of Ghidra.
abbrev pub ghidra_part : GhidraTriage → String
ghidra_part ghidra =
    if ghidra.analyzed
    then "; Ghidra confirmed "
      <> decimal (length ghidra.flagged_calls)
      <> " suspicious call site(s) across "
      <> decimal ghidra.function_count
      <> " function(s)"
    else (if ghidra.available then "; Ghidra enrichment was requested but did not complete" else "")

unfoldable pub summarize : ThreatVerdict → ℕ → ℕ → ℕ → Bool → GhidraTriage → String
unfolding decimal
summarize verdict capabilities_count indicator_count rule_count packed ghidra =
    "Triage verdict: "
    <> verdict_value verdict
    <> ". "
    <> decimal capabilities_count
    <> " capability group(s), "
    <> decimal rule_count
    <> " signature rule(s), and "
    <> decimal indicator_count
    <> " indicator(s) recovered statically"
    <> (if packed then "; the sample appears packed" else "")
    <> ghidra_part ghidra
    <> "."

-- What a report takes of a packing report.
pub record Packing : Type 0 where
  pub likely_packed : Bool
  pub score : ℕ
  pub detected_packer : Option String

pub record MalwareTriageReport : Type 0 where
  pub sha256 : String
  pub verdict : ThreatVerdict
  pub risk_score : ℕ
  pub summary : String
  pub capabilities : List CapabilityMatch
  pub indicators : List IndicatorOfCompromise
  pub signature_matches : List RuleMatch
  pub packed : Bool
  pub packing_score : ℕ
  pub detected_packer : Option String
  pub ghidra : GhidraTriage
  pub limitations : List String

abbrev pub not_requested : GhidraTriage
not_requested = record {
  available = false;
  analyzed = false;
  function_count = 0;
  imported_symbol_count = 0;
  flagged_calls = [];
  detail = "Ghidra headless enrichment was not requested.";
  elapsed_ms = 0;
}

abbrev pub ghidra_or_not : Option GhidraTriage → GhidraTriage
ghidra_or_not none = not_requested
ghidra_or_not (some ghidra) = ghidra

abbrev pub limitations_of : Bool → List String
limitations_of available =
    "Triage is static and heuristic; import-implied capabilities do not prove malicious intent."
    ∷ "Absence of indicators is not proof of benignity — packed or obfuscated code hides its imports."
    ∷ (if available
        then []
        else "Ghidra was not configured, so call-site confirmation was skipped." ∷ [])

-- The part of `triage_binary` behind the analyses that it calls.
unfoldable pub triage_of :
    String
    → List CapabilityMatch
    → List IndicatorOfCompromise
    → List RuleMatch
    → Packing
    → Option GhidraTriage
    → MalwareTriageReport
unfolding risk_score verdict_for summarize
triage_of sha256 capabilities indicators signature_matches packing ghidra =
    let score = risk_score capabilities indicators signature_matches packing.likely_packed in
    let resolved_ghidra = ghidra_or_not ghidra in
    record {
      sha256 = sha256;
      verdict = verdict_for score;
      risk_score = score;
      summary =
          summarize (verdict_for score) (length capabilities) (length indicators)
            (length signature_matches) packing.likely_packed resolved_ghidra;
      capabilities = capabilities;
      indicators = indicators;
      signature_matches = signature_matches;
      packed = packing.likely_packed;
      packing_score = packing.score;
      detected_packer = packing.detected_packer;
      ghidra = resolved_ghidra;
      limitations = limitations_of resolved_ghidra.available;
    }
