-- ===== src/AdapterRegistry/Contracts.antt =====
-- functions/adapters/adapter-registry.js: what every registered plugin satisfies, and the lock.
use sentinel_engine_sovereig.Base.{
  String, true, false, some, List, [], ◌∷◌, ◌++◌, Result, ok, err, lookup, insert, lookup-insert,
  ◌==◌, Bool-cases, inl, inr, ◌≡◌, refl, ap, sym, subst, ◌∙◌, arith,
}
use sentinel_engine_sovereig.AdapterRegistry.{
  Fault, AdapterSpec, AdapterRegistry, Call, registers, locks, register, lock, get, step, run,
}

-- the Contract Protocol
abbrev pub IsContracted : AdapterSpec → Type 0
IsContracted spec =
    (spec.is_object ≡ true)
    × (spec.is_signal_aware ≡ true)
    × (spec.has_fetch ≡ true)
    × (spec.has_health_check ≡ true)

register-eq-ok :
    (id : String) (spec : AdapterSpec) (r r' : AdapterRegistry)
    → register id spec r ≡ ok r'
    → IsContracted spec
      × (r.locked ≡ false)
      × (r' ≡ record r { registry = insert id spec r.registry })
unfolding register
register-eq-ok id spec r r' h = (ground arith, ground arith, ground arith)

get-step :
    (call : Call) (r : AdapterRegistry) (id : String) (spec : AdapterSpec)
    → ((old : AdapterSpec) → get id r ≡ some old → IsContracted old)
    → get id (step call r) ≡ some spec
    → IsContracted spec
unfolding step get lock
get-step locks r id spec before h = before spec h
get-step (registers name new) r id spec before h = go (register name new r) refl
  where
    go : (x : Result Fault AdapterRegistry) → register name new r ≡ x → IsContracted spec
    go (err fault) e = before spec (rw (e, step) at h)
    go (ok r') e =
        let (contract, open_, made) = register-eq-ok name new r r' e in
        let found : lookup id (insert name new r.registry) ≡ some spec =
          ap (λ (s : AdapterRegistry). lookup id s.registry) (sym made) ∙ (rw (e, step) at h) in
        let read = sym (lookup-insert name id new r.registry) ∙ found in
        elim (Bool-cases (name == id)) [
          | inl mine ↦
              let same : new ≡ spec = ground (arith, read, mine) in subst IsContracted same contract
          | inr other ↦ before spec (rw other at read)
        ]

-- Whatever is registered and locked since the start, every plugin that the registry gives out is an
-- object that declares itself aware of signals and has both methods.
run-IsContracted :
    (calls : List Call) (r : AdapterRegistry) (id : String) (spec : AdapterSpec)
    → ((name : String) (old : AdapterSpec) → get name r ≡ some old → IsContracted old)
    → get id (run calls r) ≡ some spec
    → IsContracted spec
unfolding run
run-IsContracted [] r id spec before h = before id spec h
run-IsContracted (call ∷ calls) r id spec before h =
    run-IsContracted calls (step call r) id spec
      (λ name old at. get-step call r name old (before name) at) h

step-locked : (call : Call) (r : AdapterRegistry) → r.locked ≡ true → step call r ≡ r
unfolding step lock register
step-locked locks r locked = ground (arith, locked)
step-locked (registers id spec) r locked = rw (locked, register) refl

run-of_locked : (after : List Call) (r : AdapterRegistry) → r.locked ≡ true → run after r ≡ r
unfolding run
run-of_locked [] r locked = refl
run-of_locked (call ∷ after) r locked =
    ap (run after) (step-locked call r locked) ∙ run-of_locked after r locked

-- After the lock nothing is registered any more: whatever calls follow, the registry is what it was
-- when it was locked.
run-locked :
    (before after : List Call) (r : AdapterRegistry)
    → run (before ++ locks ∷ after) r ≡ lock (run before r)
unfolding run step lock
run-locked [] after r = run-of_locked after (lock r) refl
run-locked (call ∷ before) after r = run-locked before after (step call r)
