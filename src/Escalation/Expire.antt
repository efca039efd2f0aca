-- ===== src/Escalation/Expire.antt =====
-- functions/escalation-engine.js: expireStaleEscalations and listPending.
pub mod Laws
pub mod Deadlines
use mathlib.Core.List.{reverse}
use sentinel_engine_sovereig.Base.{
  ℕ, String, Bool, true, false, Option, none, some, List, [], ◌∷◌, ◌++◌, ◌+◌, not, ◌&&◌, Result, ok,
  err, ◌>>=◌, ◌>>◌, Table, length, filter, find?, map, zero, suc, ltb, ◌==◌, if◌then◌else◌,
}
use sentinel_engine_sovereig.AuthorityGraph.Reduction.{contract_to_minimum}
use sentinel_engine_sovereig.EvidenceLocker.{get_sql, execute}
use sentinel_engine_sovereig.AuthorityMatrix.{AuthorityRow}
use sentinel_engine_sovereig.EvidenceLocker.Callers.{event_object}
use sentinel_engine_sovereig.Escalation.{
  Status, ttl_expired, monotonic_reduction_applied, EngineFault, reduction_fault, Escalation,
  monotonic_reduction, Engine, lift_db, and_then, record_in,
}
use sentinel_engine_sovereig.Escalation.Resolve.{is_pending}

abbrev pub is_stale : ℕ → Escalation → Bool
is_stale now e = is_pending e.status && ltb e.ttl_expires_at now

abbrev pub is_utility : Escalation → Bool
is_utility e = e.impact_level == "UTILITY_CRITICAL"

-- the WHERE clauses of the two phases
abbrev pub blockable : ℕ → Escalation → Bool
blockable now e = is_stale now e && not (is_utility e)

abbrev pub bypassable : ℕ → Escalation → Bool
bypassable now e = is_stale now e && is_utility e

abbrev pub expired_row : Escalation → Escalation
expired_row e = record e { status = ttl_expired; resolved_by = some "SYSTEM_TTL_ENFORCEMENT" }

abbrev pub bypassed_row : Escalation → Escalation
bypassed_row e = record e {
  status = monotonic_reduction_applied;
  resolved_by = some "SYSTEM_MONOTONIC_REDUCTION";
}

-- UPDATE … SET … WHERE
unfoldable pub update_where :
    (Escalation → Bool) → (Escalation → Escalation) → List Escalation → List Escalation
update_where p f [] = []
update_where p f (r ∷ rs) = (if p r then f r else r) ∷ update_where p f rs

-- the events of phase 1; a call that throws ends the loop
unfoldable pub record_blocked :
    (ℕ → String) → List Escalation → Engine → Engine × Result EngineFault (Unit {0})
record_blocked ids [] s = (s, ok tt)
record_blocked ids (r ∷ rs) s =
    and_then
      (record_in (ids (length rs))
        (event_object r.request_id "HUMAN_CONFIRM_REJECTION" r.tenant_id "TTL_EXPIRED" none) s)
      (record_blocked ids rs)

-- the reduction of one row of phase 2; it changes the registry in place
reduce_for : String → String → Engine → Engine × Result EngineFault (Unit {0})
reduce_for id timestamp s =
    elim (contract_to_minimum id timestamp s.registry "UTILITY_CRITICAL_DOMAIN_ROOT"
      "Supervisor TTL Expired" none) [
        | ok (registry, finding) ↦ (record s { registry = some registry }, ok tt)
        | err fault ↦ (s, err (reduction_fault fault))
      ]

-- the loop of phase 2
unfoldable pub bypass_all :
    (ℕ → String) → String → List Escalation → Engine → Engine × Result EngineFault (Unit {0})
unfolding reduce_for
bypass_all ids timestamp [] s = (s, ok tt)
bypass_all ids timestamp (r ∷ rs) s = and_then (reduce_for (ids (length rs)) timestamp s) λ s1.
    and_then
      (record_in (ids (length rs))
        (event_object r.request_id "GOVERNANCE_FINDING" r.tenant_id "MONOTONIC_REDUCTION_TRIGGERED"
          (some "SYSTEM_MONOTONIC_REDUCTION"))
        s1)
      λ s2.
        bypass_all ids timestamp rs
          (record s2 { sent = s2.sent ++ monotonic_reduction r.escalation_id ∷ [] })

-- The `try` block: the statement and the loop of phase 1, then those of phase 2.
phase_two : (ℕ → String) → String → ℕ → Engine → Engine × Result EngineFault (Unit {0})
unfolding bypass_all
phase_two ids timestamp now s =
    bypass_all ids timestamp (filter (bypassable now) s.rows)
      (record s { rows = update_where (bypassable now) bypassed_row s.rows })

phase_one : (ℕ → String) → ℕ → Engine → Engine × Result EngineFault (Unit {0})
unfolding record_blocked
phase_one ids now s =
    record_blocked ids (filter (blockable now) s.rows)
      (record s { rows = update_where (blockable now) expired_row s.rows })

try_expire : (ℕ → String) → String → ℕ → Engine → Engine × Result EngineFault ℕ
unfolding phase_one phase_two
try_expire ids timestamp now s =
    and_then (s, lift_db (execute s.locker))
      λ s0. and_then (phase_one ids now s0) λ s1. and_then (phase_two ids timestamp now s1) λ s2. (
        s2,
        ok (length (filter (blockable now) s0.rows) + length (filter (bypassable now) s1.rows)),
      )

-- the handler: what was thrown is logged, and the count is 0
caught : Engine × Result EngineFault ℕ → Engine × Result EngineFault ℕ
caught (s, ok total) = (s, ok total)
caught (s, err fault) = (s, ok 0)

-- Only the missing configuration is thrown.
unfoldable pub expire_stale_escalations :
    (ℕ → String) → String → ℕ → Engine → Engine × Result EngineFault ℕ
unfolding try_expire caught
expire_stale_escalations ids timestamp now s =
    and_then (s, lift_db (get_sql s.locker)) λ s0. caught (try_expire ids timestamp now s0)

-- a row with the name and the role of its authority, where that is registered
pub record Listed : Type 0 where
  pub escalation : Escalation
  pub authority_name : Option String
  pub authority_role : Option String

abbrev name_of : Option AuthorityRow → Option String
name_of none = none
name_of (some a) = some a.name

abbrev role_of : Option AuthorityRow → Option String
role_of none = none
role_of (some a) = some a.role

-- LEFT JOIN standing_authority_matrix, whose key is authority_id
unfoldable pub join_authority : List AuthorityRow → Escalation → Listed
join_authority authorities e =
    let a = find? (λ (r : AuthorityRow). r.authority_id == e.authority_id) authorities in
    record { escalation = e; authority_name = name_of a; authority_role = role_of a }

-- listPending: the stale rows are expired first; newest first is the reverse of the table's order
unfoldable pub list_pending :
    (ℕ → String) → String → ℕ → String → Engine → Engine × Result EngineFault (List Listed)
unfolding expire_stale_escalations join_authority
list_pending ids timestamp now tenant_id s =
    let (s', expired) = expire_stale_escalations ids timestamp now s in
    (
      s',
      expired >>= λ _. ok (elim (execute s'.locker) [
        | ok _ ↦
            map (join_authority s'.authorities)
              (filter (λ e. e.tenant_id == tenant_id && is_pending e.status) (reverse s'.rows))
        | err _ ↦ []
      ]),
    )

abbrev first_listed : ℕ → List Listed → List Listed
first_listed zero rows = []
first_listed (suc n) [] = []
first_listed (suc n) (r ∷ rs) = r ∷ first_listed n rs

-- getHistory
unfoldable pub get_history : ℕ → String → Engine → Result EngineFault (List Listed)
unfolding join_authority
get_history limit tenant_id s =
    lift_db (get_sql s.locker)
    >> ok (elim (execute s.locker) [
      | ok _ ↦ first_listed limit (
          map (join_authority s.authorities)
            (filter (λ e. e.tenant_id == tenant_id) (reverse s.rows)))
      | err _ ↦ []
    ])
