-- ===== src/Examples/Authorities.antt =====
-- functions/authority-matrix.js on three authorities, one of them of a tenant.
use sentinel_engine_sovereig.Base.{
  ℕ, String, true, false, Option, none, some, [], ◌∷◌, ok, Memᴰ, ◌≡◌, refl,
}
use sentinel_engine_sovereig.AuthorityMatrix.{
  AuthorityRow, Matrix, upsert, register_authority, set_inactive, deactivate_authority,
}

abbrev authority : String → String → ℕ → Option String → AuthorityRow
authority id role tier tenant = record {
  authority_id = id;
  name = id;
  role = role;
  blast_radius = "REGIONAL";
  escalation_tier = tier;
  contact_channel = none;
  webhook_url = none;
  is_active = true;
  tenant_id = tenant;
}

abbrev ann : AuthorityRow
ann = authority "ann" "SOC_TIER_1" 1 none

abbrev bob : AuthorityRow
bob = authority "bob" "CISO" 4 (some "acme")

abbrev pub matrix : Matrix
matrix = record {
  configured = true;
  failing = none;
  rows = ann ∷ bob ∷ authority "eve" "SOC_TIER_2" 2 (some "other") ∷ [];
}

abbrev ann-mem : Memᴰ ann matrix.rows
ann-mem = Memᴰ.head refl

abbrev without_ann : Matrix
without_ann = record matrix {
  rows =
      record ann { is_active = false } ∷ bob ∷ authority "eve" "SOC_TIER_2" 2 (some "other") ∷ [];
}

ann_deactivated : deactivate_authority "ann" matrix ≡ ok (without_ann, true)
unfolding deactivate_authority set_inactive
ann_deactivated = refl

ann_registered : register_authority ann without_ann ≡ ok without_ann
unfolding register_authority upsert
ann_registered = refl
