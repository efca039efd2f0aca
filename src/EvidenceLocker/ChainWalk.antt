-- ===== src/EvidenceLocker/ChainWalk.antt =====
-- functions/evidence-locker.js: what verifyChain establishes of the entries of a tenant.
use sentinel_engine_sovereig.Base.{
  String, Bool, true, false, Option, none, some, List, [], ◌∷◌, ◌++◌, Result, ok, err, same,
  same_iff, or_null, ◌≡◌, refl, ◌↔◌, ◌≢◌, ap, sym, ◌∙◌, arith, Bool-cases, inl, inr,
}
use sentinel_engine_sovereig.EvidenceLocker.{
  DbFault, ChainRow, VerifyPayload, canonical, walk, verify_chain, at_entry,
}

-- Each entry names the signature of the one before it, and its own signature is genuine.
abbrev pub Linked : VerifyPayload → Option String → List ChainRow → Type 0
Linked verify last [] = Unit
Linked verify last (r ∷ rs) =
    (r.previous_signature ≡ or_null last)
    × (verify (canonical r) r.signature ≡ ok true)
    × Linked verify (some r.signature) rs

walk_iff :
    (verify : VerifyPayload) (last : Option String) (rows : List ChainRow)
    → (walk verify last rows ≡ ok none) ↔ Linked verify last rows
unfolding walk
walk_iff verify last [] = (λ h. tt, λ h. refl)
walk_iff verify last (r ∷ rs) =
    let (sound, complete) = walk_iff verify (some r.signature) rs in
    (
      λ h. (
        ground (arith, same_iff r.previous_signature (or_null last)),
        ground arith,
        sound (ground arith),
      ),
      λ h. ground (arith, same_iff r.previous_signature (or_null last), h.0, h.1, complete h.2),
    )

pub verify_chain_iff :
    (verify : VerifyPayload) (rows : List ChainRow)
    → ((verify_chain verify (ok rows)).valid ≡ true) ↔ Linked verify none rows
unfolding verify_chain
verify_chain_iff verify rows =
    let (sound, complete) = walk_iff verify none rows in
    (λ h. sound (ground arith), λ h. ground (arith, complete h))

-- the signature that the entry after these has to name
abbrev pub last_signature : Option String → List ChainRow → Option String
last_signature last [] = last
last_signature last (r ∷ rs) = last_signature (some r.signature) rs

Linked-append :
    (verify : VerifyPayload) (last : Option String) (xs ys : List ChainRow)
    → Linked verify last (xs ++ ys)
      ↔ (Linked verify last xs × Linked verify (last_signature last xs) ys)
Linked-append verify last [] ys = (λ h. (tt, h), λ h. h.1)
Linked-append verify last (x ∷ xs) ys =
    let (apart, join) = Linked-append verify (some x.signature) xs ys in
    (λ h. let (a, b) = apart h.2 in ((h.0, h.1, a), b), λ h. (h.0.0, h.0.1, join (h.0.2, h.1)))

-- Taking an entry out of a valid chain is found, where it was not the last one and its signature is
-- not that of the entry before it. Taking entries off the end is not found.
pub removal_is_found :
    (verify : VerifyPayload) (xs : List ChainRow) (y z : ChainRow) (zs : List ChainRow)
    → (verify_chain verify (ok (xs ++ y ∷ z ∷ zs))).valid ≡ true
    → or_null (some y.signature) ≢ or_null (last_signature none xs)
    → ((verify_chain verify (ok (xs ++ z ∷ zs))).valid ≢ true)
      × ((verify_chain verify (ok xs)).valid ≡ true)
removal_is_found verify xs y z zs h ne =
    let (before, after) =
      (Linked-append verify none xs (y ∷ z ∷ zs)).0
        ((verify_chain_iff verify (xs ++ y ∷ z ∷ zs)).0 h) in
    (
      λ k.
          let (_, cut) =
            (Linked-append verify none xs (z ∷ zs)).0
              ((verify_chain_iff verify (xs ++ z ∷ zs)).0 k) in
          ne (sym after.2.0 ∙ cut.0),
      (verify_chain_iff verify xs).1 before,
    )

-- The entry at which a walk stops.
pub record IsBreak (verify : VerifyPayload) (last : Option String) (rows : List ChainRow)
    (id : String) : Type 0 where
  pub before : List ChainRow
  pub entry : ChainRow
  pub after : List ChainRow
  pub split : rows ≡ before ++ entry ∷ after
  pub named : entry.locker_id ≡ id
  pub good : Linked verify last before
  pub bad : ¬ Linked verify (last_signature last before) (entry ∷ [])

walk-IsBreak :
    (verify : VerifyPayload) (last : Option String) (rows : List ChainRow) (id : String)
    → walk verify last rows ≡ ok (some id)
    → IsBreak verify last rows id
unfolding walk
walk-IsBreak verify last [] id h = cc
walk-IsBreak verify last (r ∷ rs) id h =
    elim (Bool-cases (same r.previous_signature (or_null last))) [
      | inr unlinked ↦ record {
        before = [];
        entry = r;
        after = rs;
        split = refl;
        named = ground arith;
        good = tt;
        bad = λ l. ground (arith, l.0, same_iff r.previous_signature (or_null last));
      }
      | inl linked ↦
          go linked (walk-IsBreak verify (some r.signature) rs id)
            (verify (canonical r) r.signature) refl
    ]
  where
    go :
        same r.previous_signature (or_null last) ≡ true
        → (walk verify (some r.signature) rs ≡ ok (some id)
            → IsBreak verify (some r.signature) rs id)
        → (x : Result DbFault Bool) → verify (canonical r) r.signature ≡ x
        → IsBreak verify last (r ∷ rs) id
    go linked further (ok false) e = record {
      before = [];
      entry = r;
      after = rs;
      split = refl;
      named = ground arith;
      good = tt;
      bad = λ l. ground (arith, l.1);
    }
    go linked further (ok true) e =
        let b = further (ground arith) in
        record {
          before = r ∷ b.before;
          entry = b.entry;
          after = b.after;
          split = ap (λ (l : List ChainRow). r ∷ l) b.split;
          named = b.named;
          good = ((same_iff r.previous_signature (or_null last)).0 linked, e, b.good);
          bad = b.bad;
        }
    go linked further (err fault) e = absurd (ground arith)

-- The entry that a report names as broken is the first that is not linked or not genuine: the rows
-- before it form a valid chain, and it does not extend that chain.
verify_chain-IsBreak :
    (verify : VerifyPayload) (rows : List ChainRow) (id : String)
    → (verify_chain verify (ok rows)).broken_at ≡ some (at_entry id)
    → IsBreak verify none rows id
unfolding verify_chain
verify_chain-IsBreak verify rows id h = walk-IsBreak verify none rows id (ground arith)
