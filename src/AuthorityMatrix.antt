-- ===== src/AuthorityMatrix.antt =====
-- functions/authority-matrix.js: the table of human authorities, and who is responsible for a
-- request. The statements of the file run on a list of rows; among rows that a query orders alike,
-- the first of the table comes first. Escalation tiers are natural numbers.
pub mod Resolution
pub mod Standing
pub mod Chain
use sentinel_engine_sovereig.Base.{
  ℕ, String, Bool, true, false, Option, none, some, List, [], ◌∷◌, map, not, ◌&&◌, ◌||◌, Result, ok,
  err, ◌==◌, ◌⧺◌, includes, or_null, filter, leb, ltb, if◌then◌else◌,
}

pub data MatrixFault : Type 0 where
  config_failure invalid_role invalid_blast_radius : MatrixFault
  query_failure : String → MatrixFault

-- a row of `standing_authority_matrix`
pub record AuthorityRow : Type 0 where
  pub authority_id : String
  pub name : String
  pub role : String
  pub blast_radius : String
  pub escalation_tier : ℕ
  pub contact_channel : Option String
  pub webhook_url : Option String
  pub is_active : Bool
  pub tenant_id : Option String

-- The database: whether it is configured, the fault that its statements meet, if any, and the rows.
pub record Matrix : Type 0 where
  pub configured : Bool
  pub failing : Option MatrixFault
  pub rows : List AuthorityRow

pub record Authority : Type 0 where
  pub authority_id : String
  pub name : String
  pub role : String
  pub escalation_tier : ℕ
  pub contact_channel : Option String
  pub webhook_url : Option String

-- BLAST_RADIUS and AUTHORITY_ROLES
abbrev pub blast_radii : List String
blast_radii = "LOCAL" ∷ "REGIONAL" ∷ "GLOBAL" ∷ []

abbrev pub authority_roles : List String
authority_roles = "SOC_TIER_1" ∷ "SOC_TIER_2" ∷ "CHIEF_ENGINEER" ∷ "CISO" ∷ []

unfoldable pub classify_blast_radius : String → String → String
classify_blast_radius impact_level query_classification =
    if impact_level == "HIGH_IMPACT" && query_classification == "SENSITIVE"
    then "GLOBAL"
    else if impact_level == "HIGH_IMPACT"
    then "REGIONAL"
    else "LOCAL"

-- DEFAULT_ESCALATION_MAP[blastRadius] || DEFAULT_ESCALATION_MAP.GLOBAL
unfoldable pub default_escalation : String → String × ℕ
default_escalation blast_radius =
    if blast_radius == "LOCAL"
    then ("SOC_TIER_1", 1)
    else if blast_radius == "REGIONAL"
    then ("SOC_TIER_2", 2)
    else ("CISO", 4)

unfoldable pub fallback_authority : String → Authority
fallback_authority blast_radius =
    let (role, tier) = default_escalation blast_radius in
    record {
      authority_id = "SYSTEM_DEFAULT_" ⧺ role;
      name = "Default " ⧺ role ⧺ " Authority";
      role = role;
      escalation_tier = tier;
      contact_channel = none;
      webhook_url = none;
    }

unfoldable pub authority_of : AuthorityRow → Authority
authority_of row = record {
  authority_id = row.authority_id;
  name = row.name;
  role = row.role;
  escalation_tier = row.escalation_tier;
  contact_channel = row.contact_channel;
  webhook_url = row.webhook_url;
}

-- tenant_id = $1 OR tenant_id IS NULL, where NULL equals nothing
abbrev pub visible : Option String → Option String → Bool
visible tenant none = true
visible none (some t) = false
visible (some tenant) (some t) = t == tenant

-- the WHERE clause of resolveAuthority
abbrev pub eligible : String → Option String → AuthorityRow → Bool
eligible blast_radius tenant row =
    row.blast_radius == blast_radius && row.is_active && visible tenant row.tenant_id

-- CASE WHEN tenant_id IS NOT NULL THEN 0 ELSE 1 END
abbrev pub tenant_rank : Option String → ℕ
tenant_rank none = 1
tenant_rank (some t) = 0

-- the ORDER BY clause of resolveAuthority
abbrev pub precedes : AuthorityRow → AuthorityRow → Bool
precedes a b =
    ltb (tenant_rank a.tenant_id) (tenant_rank b.tenant_id)
    || (leb (tenant_rank a.tenant_id) (tenant_rank b.tenant_id)
        && leb a.escalation_tier b.escalation_tier)

abbrev better : AuthorityRow → Option AuthorityRow → AuthorityRow
better a none = a
better a (some b) = if precedes a b then a else b

-- ORDER BY … LIMIT 1
unfoldable pub first_row : List AuthorityRow → Option AuthorityRow
first_row [] = none
first_row (r ∷ rs) = some (better r (first_row rs))

abbrev or_fallback : String → Option AuthorityRow → Authority
or_fallback blast_radius none = fallback_authority blast_radius
or_fallback blast_radius (some row) = authority_of row

-- Without DATABASE_URL `ensureAuthorityTable` throws; a query that fails is caught.
unfoldable pub resolve_authority : Matrix → String → Option String → Result MatrixFault Authority
resolve_authority m blast_radius tenant =
    if m.configured
    then ok (elim m.failing [
      | none ↦ or_fallback blast_radius (first_row (filter (eligible blast_radius tenant) m.rows))
      | some fault ↦ fallback_authority blast_radius
    ])
    else err config_failure

abbrev pub lower : ℕ → Option ℕ → ℕ
lower a none = a
lower a (some b) = if leb a b then a else b

-- SELECT MIN(escalation_tier) … WHERE blast_radius = $1 AND is_active = TRUE
unfoldable pub min_tier : String → List AuthorityRow → Option ℕ
min_tier blast_radius [] = none
min_tier blast_radius (r ∷ rs) =
    let rest = min_tier blast_radius rs in
    if r.blast_radius == blast_radius && r.is_active
    then some (lower r.escalation_tier rest)
    else rest

-- escalation_tier >= (…), where NULL compares with nothing
abbrev at_least : Option ℕ → ℕ → Bool
at_least none tier = false
at_least (some least) tier = leb least tier

-- ORDER BY escalation_tier ASC
unfoldable pub insert_by_tier : AuthorityRow → List AuthorityRow → List AuthorityRow
insert_by_tier r [] = r ∷ []
insert_by_tier r (s ∷ ss) =
    if leb r.escalation_tier s.escalation_tier then r ∷ s ∷ ss else s ∷ insert_by_tier r ss

unfoldable pub order_by_tier : List AuthorityRow → List AuthorityRow
unfolding insert_by_tier
order_by_tier [] = []
order_by_tier (r ∷ rs) = insert_by_tier r (order_by_tier rs)

unfoldable pub chain_rows : Matrix → String → Option String → List AuthorityRow
chain_rows m blast_radius tenant =
    let least = min_tier blast_radius m.rows in
    order_by_tier (
      filter (λ r. r.is_active && visible tenant r.tenant_id && at_least least r.escalation_tier)
        m.rows)

abbrev chain_or_fallback : String → List AuthorityRow → List Authority
chain_or_fallback blast_radius [] = fallback_authority blast_radius ∷ []
chain_or_fallback blast_radius (r ∷ rs) = map authority_of (r ∷ rs)

-- A query that fails gives the empty chain.
unfoldable pub get_authority_chain :
    Matrix → String → Option String → Result MatrixFault (List Authority)
get_authority_chain m blast_radius tenant =
    if m.configured
    then ok (elim m.failing [
      | none ↦ chain_or_fallback blast_radius (chain_rows m blast_radius tenant)
      | some fault ↦ []
    ])
    else err config_failure

-- ON CONFLICT (authority_id) DO UPDATE: every column but is_active
unfoldable pub upsert : AuthorityRow → List AuthorityRow → List AuthorityRow
upsert new [] = record new { is_active = true } ∷ []
upsert new (r ∷ rs) =
    if r.authority_id == new.authority_id
    then record new { authority_id = r.authority_id; is_active = r.is_active } ∷ rs
    else r ∷ upsert new rs

-- the values of the INSERT
abbrev pub registered : AuthorityRow → AuthorityRow
registered a = record a {
  contact_channel = or_null a.contact_channel;
  webhook_url = or_null a.webhook_url;
  tenant_id = or_null a.tenant_id;
}

-- registerAuthority, on a row whose is_active is not read
unfoldable pub register_authority : AuthorityRow → Matrix → Result MatrixFault Matrix
unfolding upsert
register_authority a m =
    if not m.configured
    then err config_failure
    else if not (includes authority_roles a.role)
    then err invalid_role
    else if not (includes blast_radii a.blast_radius)
    then err invalid_blast_radius
    else elim m.failing [
      | none ↦ ok (record m { rows = upsert (registered a) m.rows })
      | some fault ↦ err fault
    ]

unfoldable pub set_inactive : String → List AuthorityRow → List AuthorityRow
set_inactive id [] = []
set_inactive id (r ∷ rs) =
    (if r.authority_id == id then record r { is_active = false } else r) ∷ set_inactive id rs

-- deactivateAuthority: a statement that fails is caught and gives false
unfoldable pub deactivate_authority : String → Matrix → Result MatrixFault (Matrix × Bool)
unfolding set_inactive
deactivate_authority id m =
    if m.configured
    then ok (elim m.failing [
      | none ↦ (record m { rows = set_inactive id m.rows }, true)
      | some fault ↦ (m, false)
    ])
    else err config_failure

-- listActive
unfoldable pub list_active : Matrix → Option String → Result MatrixFault (List AuthorityRow)
list_active m tenant =
    if m.configured
    then ok (elim m.failing [
      | none ↦ order_by_tier (filter (λ r. r.is_active && visible tenant r.tenant_id) m.rows)
      | some fault ↦ []
    ])
    else err config_failure
