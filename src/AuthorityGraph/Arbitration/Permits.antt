-- ===== src/AuthorityGraph/Arbitration/Permits.antt =====
-- functions/authority-graph/arbitration.js: when a request is permitted, and what a permit carries.
use sentinel_engine_sovereig.Base.{
  ℕ, String, true, false, Option, none, some, List, [], ◌∷◌, ◌++◌, ok, same_iff, ◌==◌, ◌≡◌, ◌↔◌,
  ◌⊎◌, arith, Option-cases, inl, inr,
}
use sentinel_engine_sovereig.AuthorityGraph.Unit.{
  Context, AuthorityUnit, Provenance, evaluate_conditions,
}
use sentinel_engine_sovereig.AuthorityGraph.Arbitration.{
  Contract, pairwise_contract, domain_contract, constitutional_review, constitutional, permit, Kms,
  Action, LegibilityRecord, verify_provenance, review, domain_tiers, evaluate_tiers,
}

-- Tier 1 is passed by a target of the same domain, by an override, or with no target.
abbrev pub PairwiseHolds : Action → AuthorityUnit → Option AuthorityUnit → Type 0
PairwiseHolds action source none = Unit
PairwiseHolds action source (some target) =
    (source.scope.domain ≡ target.scope.domain) ⊎ (action.override_cross_domain ≡ true)

-- What a request needs to pass all three tiers, where there is a key service.
pub record Passes (kms : Kms) (now : ℕ) (context : Context) (action : Action)
    (source : AuthorityUnit) (target : Option AuthorityUnit) : Type 0 where
  pub same_pair : PairwiseHolds action source target
  pub own_domain : (source.scope.domain ≡ action.domain) ⊎ (source.scope.domain ≡ some "SYSTEM")
  pub genuine :
      (s : String)
      → source.provenance.signature ≡ some s
      → (s == "") ≡ false
      → kms.verify source.provenance.chain s ≡ ok true
  pub conditions_hold : evaluate_conditions now context source ≡ ok true

verify_provenance_sound :
    (kms : Kms) (p : Provenance) (s : String)
    → verify_provenance (some kms) p ≡ ok true
    → p.signature ≡ some s
    → (s == "") ≡ false
    → kms.verify p.chain s ≡ ok true
unfolding verify_provenance
verify_provenance_sound kms p s h e ne = ground arith

verify_provenance_complete :
    (kms : Kms) (p : Provenance)
    → ((s : String) → p.signature ≡ some s → (s == "") ≡ false → kms.verify p.chain s ≡ ok true)
    → verify_provenance (some kms) p ≡ ok true
unfolding verify_provenance
verify_provenance_complete kms p h = elim (Option-cases p.signature) [
  | inl e ↦ ground arith
  | inr (s, e) ↦ ground (arith, h s e)
]

review-permit :
    (kms : Kms) (now : ℕ) (context : Context) (action : Action) (source : AuthorityUnit)
    → (review (some kms) now context action source ≡ ok permit) ↔ (
        (verify_provenance (some kms) source.provenance ≡ ok true)
        × (evaluate_conditions now context source ≡ ok true))
unfolding review
review-permit kms now context action source = (λ h. ground arith, λ h. ground arith)

abbrev pub contracts_of : Option AuthorityUnit → List Contract
contracts_of none = domain_contract ∷ constitutional_review ∷ []
contracts_of (some target) = pairwise_contract ∷ domain_contract ∷ constitutional_review ∷ []

-- the record that is signed for a permit
abbrev pub permitted : LegibilityRecord → Option AuthorityUnit → LegibilityRecord
permitted r target = record r {
  contracts_traversed = contracts_of target;
  status = permit;
  tier_resolved_at = some constitutional;
}

module _ (kms : Kms) (now : ℕ) (context : Context) (action : Action) (source : AuthorityUnit) where
  domain_tiers_sound :
      (r : LegibilityRecord)
      → (domain_tiers (some kms) now context action source r).status ≡ permit
      → ((source.scope.domain ≡ action.domain) ⊎ (source.scope.domain ≡ some "SYSTEM"))
        × (review (some kms) now context action source ≡ ok permit)
  unfolding domain_tiers
  domain_tiers_sound r h = (
    ground (
      arith,
      same_iff source.scope.domain action.domain,
      same_iff source.scope.domain (some "SYSTEM"),
    ),
    ground arith,
  )

  domain_tiers_complete :
      (r : LegibilityRecord)
      → ((source.scope.domain ≡ action.domain) ⊎ (source.scope.domain ≡ some "SYSTEM"))
      → review (some kms) now context action source ≡ ok permit
      → domain_tiers (some kms) now context action source r ≡ record r {
        contracts_traversed =
            (r.contracts_traversed ++ domain_contract ∷ []) ++ constitutional_review ∷ [];
        status = permit;
        tier_resolved_at = some constitutional;
      }
  unfolding domain_tiers
  domain_tiers_complete r d h = ground (
    arith,
    same_iff source.scope.domain action.domain,
    same_iff source.scope.domain (some "SYSTEM"),
  )

  passes :
      (target : Option AuthorityUnit)
      → PairwiseHolds action source target
      → (source.scope.domain ≡ action.domain) ⊎ (source.scope.domain ≡ some "SYSTEM")
      → review (some kms) now context action source ≡ ok permit
      → Passes kms now context action source target
  passes target pair own h =
      let (p, c) = (review-permit kms now context action source).0 h in
      record {
        same_pair = pair;
        own_domain = own;
        genuine = λ s e ne. verify_provenance_sound kms source.provenance s p e ne;
        conditions_hold = c;
      }

  pub evaluate_tiers_sound :
      (target : Option AuthorityUnit) (r : LegibilityRecord)
      → (evaluate_tiers (some kms) now context action source target r).status ≡ permit
      → Passes kms now context action source target
  unfolding evaluate_tiers
  evaluate_tiers_sound none r h = let (own, p) = domain_tiers_sound r h in passes none tt own p
  evaluate_tiers_sound (some target) r h =
      let r' = record r { contracts_traversed = r.contracts_traversed ++ pairwise_contract ∷ [] } in
      let inner : (domain_tiers (some kms) now context action source r').status ≡ permit =
        ground arith in
      let (own, p) = domain_tiers_sound r' inner in
      passes (some target) (ground (arith, same_iff source.scope.domain target.scope.domain)) own p

  pub evaluate_tiers_complete :
      (target : Option AuthorityUnit) (r : LegibilityRecord)
      → r.contracts_traversed ≡ []
      → Passes kms now context action source target
      → evaluate_tiers (some kms) now context action source target r ≡ permitted r target
  unfolding evaluate_tiers
  evaluate_tiers_complete none r fresh p =
      let done = domain_tiers_complete r p.own_domain (
        (review-permit kms now context action source).1
          (verify_provenance_complete kms source.provenance p.genuine, p.conditions_hold)) in
      ground arith
  evaluate_tiers_complete (some target) r fresh p =
      let r' = record r { contracts_traversed = r.contracts_traversed ++ pairwise_contract ∷ [] } in
      let done = domain_tiers_complete r' p.own_domain (
        (review-permit kms now context action source).1
          (verify_provenance_complete kms source.provenance p.genuine, p.conditions_hold)) in
      ground (arith, p.same_pair, same_iff source.scope.domain target.scope.domain)
