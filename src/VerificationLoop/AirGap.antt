-- ===== src/VerificationLoop/AirGap.antt =====
-- functions/verification-loop.js: what is sent to the model, and what a poll finds.
use sentinel_engine_sovereig.Base.{
  String, Bool, true, false, Option, none, some, Result, ok, err, lookup, insert,
  lookup-insert_self, ◌==◌, Option-cases, inl, inr, ◌≡◌, refl, ap, subst, arith,
}
use sentinel_engine_sovereig.EvidenceLocker.{DbFault, get_sql, execute}
use sentinel_engine_sovereig.VerificationLoop.{
  Outside, Params, sanitize, user_content, launch_verification_sidecar,
}
use sentinel_engine_sovereig.VerificationResults.{
  Loop, VerificationRow, completed, ensure_verification_table, store_verification_result, binds,
  write_row, upserted, get_verification_status,
}

sanitize-hides :
    (out : Outside) (p : Params) (other : String)
    → p.has_manager ≡ true
    → (p.source_context == "") ≡ false
    → (other == "") ≡ false
    → out.tokenize p.source_context ≡ out.tokenize other
    → sanitize out p ≡ sanitize out (record p { source_context = other })
unfolding sanitize
sanitize-hides out p other manager filled filled' alike = elim (Option-cases (out.tokenize other)) [
  | inl failed ↦ rw (manager, filled, filled', alike, failed, sanitize) refl
  | inr (token, told) ↦ rw (manager, filled, filled', alike, told, sanitize) refl
]

-- The air gap: where there is a security manager, what is sent to the model tells of the sources only
-- what their tokens tell. With two sources that are not empty, of which tokenizePII makes the same, or for which it
-- throws both times, the same contents are sent, whatever else the sources are.
pub launch-hides :
    (out : Outside) (p : Params) (other : String) (s : Loop)
    → p.has_manager ≡ true
    → (p.source_context == "") ≡ false
    → (other == "") ≡ false
    → out.tokenize p.source_context ≡ out.tokenize other
    → (launch_verification_sidecar out p s).2
      ≡ (launch_verification_sidecar out (record p { source_context = other }) s).2
unfolding launch_verification_sidecar
launch-hides out p other s manager filled filled' alike = go (ensure_verification_table s) refl
  where
    go :
        (x : Result DbFault Loop)
        → ensure_verification_table s ≡ x
        → (launch_verification_sidecar out p s).2
          ≡ (launch_verification_sidecar out (record p { source_context = other }) s).2
    go (err fault) e = rw (e, launch_verification_sidecar) refl
    go (ok s1) e =
        rw (e, launch_verification_sidecar)
          (ap (λ sources. some (user_content p.narrative sources))
            (sanitize-hides out p other manager filled filled' alike))

-- What was stored is what a poll finds: where the database answers and the verdict has a value for
-- isVerified, the poll for the request is completed, with the verdict that was stored last; only the
-- tenant stays that of the first one.
poll-store :
    (id : String) (row : VerificationRow) (value : Option Bool) (s s' : Loop)
    → get_sql s.engine.locker ≡ ok tt
    → execute s.engine.locker ≡ ok tt
    → store_verification_result id row (some value) s ≡ ok s'
    → (found : VerificationRow) × (get_verification_status id s' ≡ ok (completed found))
      × (found ≡ record row { is_verified = value; tenant_id = found.tenant_id })
unfolding store_verification_result get_verification_status binds write_row upserted
poll-store id row value s s' connected answers h =
    let new = upserted (record row { is_verified = value }) (lookup id s.results) in
    let same : record s { results = insert id new s.results } ≡ s' =
      ground (arith, h, connected, answers) in
    (
      new,
      subst (λ l. get_verification_status id l ≡ ok (completed new)) same
          (ground (arith, connected, answers, lookup-insert_self id new s.results)),
      kept (lookup id s.results),
    )
  where
    kept :
        (old : Option VerificationRow)
        → upserted (record row { is_verified = value }) old ≡ record row {
          is_verified = value;
          tenant_id = (upserted (record row { is_verified = value }) old).tenant_id;
        }
    kept none = refl
    kept (some old) = refl
