-- ===== src/Malware/Model.antt =====
-- The values of a triage: backend/reversing_lab/malware/models.py and the results of rules.py. Texts for
-- people (titles, descriptions) are kept as texts.
use reversing_lab.Prelude.{ℕ, String, Bool, Option, List}

pub record CapabilityMatch : Type 0 where
  pub category : String
  pub title : String
  pub severity : String
  pub description : String
  pub apis : List String
  pub mitre_id : Option String

pub record IndicatorOfCompromise : Type 0 where
  pub kind : String
  pub value : String
  pub offset : ℕ
  pub encoding : String

pub record GhidraFlaggedCall : Type 0 where
  pub api_name : String
  pub call_site : ℕ
  pub caller : String

pub record GhidraTriage : Type 0 where
  pub available : Bool
  pub analyzed : Bool
  pub function_count : ℕ
  pub imported_symbol_count : ℕ
  pub flagged_calls : List GhidraFlaggedCall
  pub detail : String
  pub elapsed_ms : ℕ

pub record RuleStringMatch : Type 0 where
  pub identifier : String
  pub offset : ℕ

pub record RuleMatch : Type 0 where
  pub name : String
  pub description : String
  pub severity : String
  pub category : String
  pub mitre_id : Option String
  pub strings : List RuleStringMatch

-- A string that `extract_strings` of analyzer/strings.py recovered.
pub record ExtractedString : Type 0 where
  pub value : String
  pub offset : ℕ
  pub encoding : String
  pub length : ℕ

pub data ThreatVerdict : Type 0 where
  benign : ThreatVerdict
  low_risk : ThreatVerdict
  suspicious : ThreatVerdict
  likely_malicious : ThreatVerdict
