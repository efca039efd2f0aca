-- ===== src/AuthorityMatrix/Resolution.antt =====
-- functions/authority-matrix.js: the authority that resolveAuthority chooses.
use sentinel_engine_sovereig.Base.{String, true, Option, none, some, List, All, Memᴰ, ◌≡◌, ◌≤◌, ◌⊎◌}
use sentinel_engine_sovereig.AuthorityMatrix.{AuthorityRow, precedes}

-- A row of the list that stands before every row of it in the order of the query.
record IsFirst (rows : List AuthorityRow) (r : AuthorityRow) : Type 0 where
  member : Memᴰ r rows
  least : All (λ (s : AuthorityRow). precedes r s ≡ true) rows

-- The tenant may see a row of this owner: one of its own, or one of no tenant.
abbrev pub Sees : Option String → Option String → Type 0
Sees tenant owner = (owner ≡ none) ⊎ ((t : String) × (tenant ≡ some t) × (owner ≡ some t))

-- A row that may answer: active, of the blast radius, and one that the tenant may see.
pub record Fits (blast_radius : String) (tenant : Option String) (r : AuthorityRow) : Type 0 where
  pub radius : r.blast_radius ≡ blast_radius
  pub active : r.is_active ≡ true
  pub seen : Sees tenant r.tenant_id

-- Some row is taken rather than another: one of the tenant rather than one of no tenant, and of two of
-- the same kind the one that does not have the higher tier.
abbrev pub Before : AuthorityRow → AuthorityRow → Type 0
Before r s =
    (((t : String) × (r.tenant_id ≡ some t)) × (s.tenant_id ≡ none))
    ⊎ ((((r.tenant_id ≡ none) × (s.tenant_id ≡ none))
          ⊎ (((t : String) × (r.tenant_id ≡ some t)) × ((t : String) × (s.tenant_id ≡ some t))))
        × (r.escalation_tier ≤ s.escalation_tier))
