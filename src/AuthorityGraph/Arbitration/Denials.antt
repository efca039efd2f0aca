-- ===== src/AuthorityGraph/Arbitration/Denials.antt =====
-- functions/authority-graph/arbitration.js: the tier that decides a request, and the contracts that
-- the record lists for it.
use sentinel_engine_sovereig.Base.{
  ℕ, Option, none, some, List, [], ◌∷◌, ◌≡◌, refl, ◌⊎◌, Result, ok, err, arith, ◌++◌, same, ◌||◌,
  Bool-cases, inl, inr, true, false, not, ◌&&◌, ap,
}
use sentinel_engine_sovereig.AuthorityGraph.Unit.{Fault, Context, AuthorityUnit}
use sentinel_engine_sovereig.AuthorityGraph.Arbitration.{
  Contract, pairwise_contract, domain_contract, constitutional_review, Tier, pairwise, domain,
  constitutional, system_fault, Status, denied_pairwise_conflict, denied_domain_mismatch,
  denied_evaluation_error, denied_provenance_forgery, denied_constitutional_conditions_failed,
  denied_constitutional_no_audit_trail, permit, Kms, Action, LegibilityRecord, review, domain_tiers,
  evaluate_tiers,
}

-- The contracts that stand before the end of a tier; a fault is met in the last one.
abbrev pub contracts_upto : Tier → Option AuthorityUnit → List Contract
contracts_upto pairwise target = pairwise_contract ∷ []
contracts_upto domain none = domain_contract ∷ []
contracts_upto domain (some t) = pairwise_contract ∷ domain_contract ∷ []
contracts_upto constitutional none = domain_contract ∷ constitutional_review ∷ []
contracts_upto constitutional (some t) =
    pairwise_contract ∷ domain_contract ∷ constitutional_review ∷ []
contracts_upto system_fault none = domain_contract ∷ constitutional_review ∷ []
contracts_upto system_fault (some t) =
    pairwise_contract ∷ domain_contract ∷ constitutional_review ∷ []

-- The statuses that a tier can give.
abbrev pub StatusOf : Tier → Status → Type 0
StatusOf pairwise s = s ≡ denied_pairwise_conflict
StatusOf domain s = s ≡ denied_domain_mismatch
StatusOf system_fault s = s ≡ denied_evaluation_error
StatusOf constitutional s =
    (s ≡ denied_provenance_forgery)
    ⊎ (s ≡ denied_constitutional_conditions_failed)
    ⊎ (s ≡ denied_constitutional_no_audit_trail)
    ⊎ (s ≡ permit)

-- What an evaluation leaves in its record: the tier that decided, the contracts up to it and no
-- other, and a status of that tier.
pub record IsTraced (target : Option AuthorityUnit) (r : LegibilityRecord) : Type 0 where
  pub tier : Tier
  pub resolved : r.tier_resolved_at ≡ some tier
  pub contracts : r.contracts_traversed ≡ contracts_upto tier target
  pub status_of : StatusOf tier r.status

review-StatusOf :
    (kms : Option Kms) (now : ℕ) (context : Context) (action : Action) (source : AuthorityUnit)
    (s : Status)
    → review kms now context action source ≡ ok s
    → StatusOf constitutional s
unfolding review
review-StatusOf kms now context action source s h = ground arith

closing :
    (target : Option AuthorityUnit)
    → (contracts_upto domain target ++ constitutional_review ∷ []
        ≡ contracts_upto constitutional target)
      × (contracts_upto domain target ++ constitutional_review ∷ []
          ≡ contracts_upto system_fault target)
closing none = (refl, refl)
closing (some t) = (refl, refl)

domain_tiers-IsTraced :
    (kms : Option Kms) (now : ℕ) (context : Context) (action : Action) (source : AuthorityUnit)
    (target : Option AuthorityUnit) (r : LegibilityRecord)
    → r.contracts_traversed ++ domain_contract ∷ [] ≡ contracts_upto domain target
    → IsTraced target (domain_tiers kms now context action source r)
unfolding domain_tiers
domain_tiers-IsTraced kms now context action source target r upto =
    elim (Bool-cases
      (same source.scope.domain action.domain || same source.scope.domain (some "SYSTEM"))) [
        | inr no_match ↦ record {
          tier = domain;
          resolved = ground arith;
          contracts = ground arith;
          status_of = ground arith;
        }
        | inl match ↦ go match (review kms now context action source) refl
      ]
  where
    closed :
        (r.contracts_traversed ++ domain_contract ∷ []) ++ constitutional_review ∷ []
        ≡ contracts_upto domain target ++ constitutional_review ∷ []
    closed = ap (λ (cs : List Contract). cs ++ constitutional_review ∷ []) upto

    go :
        (same source.scope.domain action.domain || same source.scope.domain (some "SYSTEM")) ≡ true
        → (x : Result Fault Status) → review kms now context action source ≡ x
        → IsTraced target (domain_tiers kms now context action source r)
    go match (ok s) e = record {
      tier = constitutional;
      resolved = ground arith;
      contracts = ground (arith, closed, (closing target).0);
      status_of = ground (arith, review-StatusOf kms now context action source s e);
    }
    go match (err fault) e = record {
      tier = system_fault;
      resolved = ground arith;
      contracts = ground (arith, closed, (closing target).1);
      status_of = ground arith;
    }

-- Every evaluation of the tiers, from a record that lists no contract yet, leaves a record that
-- names the tier that decided, the contracts that stand up to that tier and no later one, and a
-- status that belongs to the tier.
evaluate_tiers-IsTraced :
    (kms : Option Kms) (now : ℕ) (context : Context) (action : Action) (source : AuthorityUnit)
    (target : Option AuthorityUnit) (r : LegibilityRecord)
    → r.contracts_traversed ≡ []
    → IsTraced target (evaluate_tiers kms now context action source target r)
unfolding evaluate_tiers
evaluate_tiers-IsTraced kms now context action source none r fresh =
    domain_tiers-IsTraced kms now context action source none r (rw fresh)
evaluate_tiers-IsTraced kms now context action source (some t) r fresh =
    elim (Bool-cases (same source.scope.domain t.scope.domain || action.override_cross_domain)) [
      | inr conflict ↦ record {
        tier = pairwise;
        resolved = ground arith;
        contracts = ground arith;
        status_of = ground arith;
      }
      | inl fine ↦
          let go_on : (not (same source.scope.domain t.scope.domain)
                && not action.override_cross_domain)
              ≡ false =
            ground arith in
          rw go_on (domain_tiers-IsTraced kms now context action source (some t) _ (rw fresh))
    ]
