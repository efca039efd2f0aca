-- ===== src/Examples/Rollbacks.antt =====
-- functions/rollback-engine.js on one domain table with rows of two tenants.
use sentinel_engine_sovereig.Base.{
  String, some, List, [], ◌∷◌, ok, err, Table, lookup, insert, includes, false, Memᴰ, ◌↔◌, ◌⊎◌, ◌≢◌,
  ◌≡◌, refl,
}
use sentinel_engine_sovereig.Rollback.{
  DomainRow, Manifest, Outside, RollbackFault, purge, initiate_rollback, Rollback,
}
use sentinel_engine_sovereig.Rollback.Impossible.{initiate_rollback_throws}
use sentinel_engine_sovereig.Rollback.Purge.{purge_iff}
use sentinel_engine_sovereig.Examples.Evidence.{empty_db, chain}

abbrev out : Outside
out = record {
  sha256 = λ hashes. "hash";
  ascending = λ hashes. hashes;
  text_of = λ manifest. "{}";
  manifest_of = λ text. [];
}

abbrev domain_row : String → String → DomainRow
domain_row tenant hash = record { tenant_id = tenant; entity_hash = hash }

abbrev ports : List DomainRow
ports = domain_row "acme" "1" ∷ domain_row "other" "2" ∷ []

abbrev tables : Table (List DomainRow)
tables = ("port_congestion", ports) ∷ ("risk_matrix", ports) ∷ []

abbrev state : Rollback
state = record { locker = empty_db; tables = tables; chain = λ tenant. chain; audits = 99 }

initiate_rollback_throws_example :
    (fault : RollbackFault) × (initiate_rollback out "e-1" "acme" "ann" "r-1" state
      ≡ (state, err fault))
initiate_rollback_throws_example = initiate_rollback_throws out "e-1" "acme" "ann" "r-1" state

-- a checkpoint of one of the two tables
abbrev manifest : Manifest
manifest = ("port_congestion", record { row_count = 1; content_hash = "hash" }) ∷ []

abbrev names : List String
names = "port_congestion" ∷ "risk_matrix" ∷ []

abbrev purged_tables : Table (List DomainRow)
purged_tables = ("port_congestion", domain_row "other" "2" ∷ []) ∷ ("risk_matrix", ports) ∷ []

ports_purged : purge manifest "acme" names tables ≡ ok (purged_tables, "port_congestion" ∷ [])
unfolding purge lookup insert
ports_purged = refl

ports_there : lookup "port_congestion" tables ≡ some ports
unfolding lookup
ports_there = refl

purge_iff_example :
    (rows' : List DomainRow) × (lookup "port_congestion" purged_tables ≡ some rows')
    × ((r : DomainRow)
        → Memᴰ r rows' ↔ (
            Memᴰ r ports
            × ((includes ("port_congestion" ∷ []) "port_congestion" ≡ false)
                ⊎ (r.tenant_id ≢ "acme"))))
purge_iff_example =
    purge_iff manifest "acme" names tables purged_tables ("port_congestion" ∷ []) "port_congestion"
      ports ports_purged ports_there
