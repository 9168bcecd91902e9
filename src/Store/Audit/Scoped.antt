-- ===== src/Store/Audit/Scoped.antt =====
-- What a reader sees of the audit events of backend/reversing_lab/database/repository.py.
use reversing_lab.Prelude.{
  ℕ, ◌≡◌, ◌⊎◌, zero, suc, min, Bool, true, List, [], ◌∷◌, keep, take, length, length-take, eq_iff,
  arith, All, Bool-cases, if_keeps,
}
use reversing_lab.Jobs.Repository.{Scope}
use reversing_lab.Store.Audit.{AuditEvent, Filters, passes, iter_export, export_count}

All-take : (P : AuditEvent → Type 0) (n : ℕ) (xs : List AuditEvent) → All P xs → All P (take n xs)
All-take P zero xs all = tt
All-take P (suc n) [] all = tt
All-take P (suc n) (x ∷ xs) all = (all.0, All-take P n xs all.1)

All-keep :
    (P : AuditEvent → Type 0) (test : AuditEvent → Bool) (xs : List AuditEvent)
    → ((x : AuditEvent) → test x ≡ true → P x)
    → All P (keep test xs)
All-keep P test [] h = tt
All-keep P test (x ∷ xs) h =
    if_keeps (All P) (test x) (x ∷ keep test xs) (keep test xs)
      (λ holds. (h x holds, All-keep P test xs h)) (λ fails. All-keep P test xs h)

passes_scoped :
    (scope : Scope) (filters : Filters) (e : AuditEvent)
    → passes scope filters e ≡ true
    → (scope.unrestricted ≡ true) ⊎ (e.principal_id ≡ scope.owner_id)
unfolding passes
passes_scoped scope filters e h =
    ground (arith, h, eq_iff e.principal_id scope.owner_id, Bool-cases scope.unrestricted)

-- An export holds rows of the reader only, unless the reader is unrestricted, and its length is the
-- count that `export_count` announces, cut at the limit.
pub export_scoped :
    (scope : Scope) (limit : ℕ) (filters : Filters) (events : List AuditEvent)
    → All
        (λ (e : AuditEvent). (scope.unrestricted ≡ true) ⊎ (e.principal_id ≡ scope.owner_id))
        (iter_export scope limit filters events)
      × (length (iter_export scope limit filters events)
          ≡ min limit (export_count scope filters events))
unfolding iter_export export_count
export_scoped scope limit filters events = (
  All-take _ limit (keep (passes scope filters) events)
      (All-keep _ (passes scope filters) events (passes_scoped scope filters)),
  length-take limit (keep (passes scope filters) events),
)
