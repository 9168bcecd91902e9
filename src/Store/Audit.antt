-- ===== src/Store/Audit.antt =====
-- `AuditRepository` of backend/reversing_lab/database/repository.py. A listing is sorted by time and
-- identifier, which are arguments of `record`; the table is in that order, oldest first.
pub mod Scoped
use reversing_lab.Prelude.{
  ℕ, String, Bool, true, false, ◌&&◌, ◌||◌, not, Option, none, some, List, [], ◌∷◌, ◌++◌, keep,
  take, drop, length, if◌then◌else◌, ltb, leb, str_eq,
}
use mathlib.Core.Option
use mathlib.Core.List.{reverse}
use reversing_lab.Prelude.Text.{text_take}
use reversing_lab.Jobs.Repository.{Scope}

pub record AuditEvent : Type 0 where
  pub id : String
  pub request_id : String
  pub principal_id : String
  pub role : String
  pub action : String
  pub resource_type : String
  pub resource_id : Option String
  pub method : String
  pub route : String
  pub status_code : ℕ
  pub outcome : String
  pub details_json : String
  pub created_at : ℕ

-- resource_id[:128] if resource_id else None
abbrev pub cut_resource : Option String → Option String
cut_resource none = none
cut_resource (some r) = if str_eq r "" then none else some (text_take 128 r)

-- The row of `record`, from the values that it is called with.
unfoldable pub stored_event : AuditEvent → AuditEvent
stored_event e = record {
  id = e.id;
  request_id = e.request_id;
  principal_id = text_take 128 e.principal_id;
  role = text_take 32 e.role;
  action = text_take 192 e.action;
  resource_type = text_take 64 e.resource_type;
  resource_id = cut_resource e.resource_id;
  method = text_take 8 e.method;
  route = text_take 256 e.route;
  status_code = e.status_code;
  outcome = text_take 16 e.outcome;
  details_json = "{}";
  created_at = e.created_at;
}

-- `record`
unfoldable pub record_event : AuditEvent → List AuditEvent → List AuditEvent
unfolding stored_event
record_event e events = events ++ stored_event e ∷ []

pub record Filters : Type 0 where
  pub action : Option String
  pub resource_type : Option String
  pub outcome : Option String
  pub created_after : Option ℕ
  pub created_before : Option ℕ

-- A condition that is put only where its value is given.
abbrev pub matches : Option String → String → Bool
matches none text = true
matches (some wanted) text = str_eq text wanted

abbrev pub not_before : Option ℕ → ℕ → Bool
not_before none time = true
not_before (some after) time = leb after time

abbrev pub is_before : Option ℕ → ℕ → Bool
is_before none time = true
is_before (some before) time = ltb time before

-- `_export_filters`, the conditions on one row
unfoldable pub passes : Scope → Filters → AuditEvent → Bool
passes scope filters e =
    (scope.unrestricted || str_eq e.principal_id scope.owner_id)
    && matches filters.action e.action
    && matches filters.resource_type e.resource_type
    && matches filters.outcome e.outcome
    && not_before filters.created_after e.created_at
    && is_before filters.created_before e.created_at

-- The filters of `list`.
abbrev pub without_times : Filters → Filters
without_times filters = record filters { created_after = none; created_before = none }

-- The page, newest first, and the total.
unfoldable pub list : Scope → ℕ → ℕ → Filters → List AuditEvent → List AuditEvent × ℕ
unfolding passes
list scope offset limit filters events =
    let rows = keep (passes scope (without_times filters)) events in
    (take limit (drop offset (reverse rows)), length rows)

unfoldable pub export_count : Scope → Filters → List AuditEvent → ℕ
unfolding passes
export_count scope filters events = length (keep (passes scope filters) events)

-- `iter_export`, oldest first
unfoldable pub iter_export : Scope → ℕ → Filters → List AuditEvent → List AuditEvent
unfolding passes
iter_export scope limit filters events = take limit (keep (passes scope filters) events)
