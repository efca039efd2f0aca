-- ===== src/RecursiveRetry/Bounds.antt =====
-- functions/recursive-retry.js: how often the model is asked.
use sentinel_engine_sovereig.Base.{
  ℕ, zero, suc, ◌+◌, ◌*◌, ◌≤◌, String, Option, none, some, List, [], ◌∷◌, ◌++◌, length,
  length-append, Option-cases, inl, inr, ◌≡◌, refl, arith,
}
use sentinel_engine_sovereig.Schemas.Values.{Json, Fields}
use sentinel_engine_sovereig.Schemas.Shapes.{Schema}
use sentinel_engine_sovereig.Schemas.Reports.{total}
use sentinel_engine_sovereig.RecursiveRetry.{
  Outside, Request, Calls, Progress, generate_sub_module, retry_module, retry_one, retry_each,
  finish_module, sub_schema, recursive_schema_retry, max_retries_per_module,
}

retry_module-le :
    (out : Outside) (schema : Schema) (request : Request) (left : ℕ) (calls : Calls)
    → length (retry_module out schema request left calls).0 ≤ length calls + left
unfolding retry_module generate_sub_module
retry_module-le out schema request zero calls = omega arith
retry_module-le out schema request (suc left) calls = ground (
  arith,
  retry_module-le out schema request left (calls ++ request ∷ []),
  length-append calls (request ∷ []),
)

finish_module-calls :
    (name : String) (p : Progress) (result : Calls × Option Json)
    → (finish_module name p result).calls ≡ result.0
unfolding finish_module
finish_module-calls name p (calls, none) = refl
finish_module-calls name p (calls, some value) = refl

-- 1 for a module that has a schema of its own, 0 for another name
abbrev pub known : String → ℕ
known name = elim (sub_schema name) [ none ↦ 0 | some schema ↦ 1 ]

pub known-le : (name : String) → known name ≤ 1
known-le name = ground arith

retry_one-le :
    (out : Outside) (model_id context query name : String) (p : Progress)
    → length (retry_one out model_id context query name p).calls ≤ length p.calls + 2 * known name
unfolding retry_one
retry_one-le out model_id context query name p = elim (Option-cases (sub_schema name)) [
  | inl unknown ↦ rw (unknown, retry_one) (omega arith)
  | inr (schema, found) ↦
      let request : Request = record {
        model_id = model_id;
        module_name = name;
        context = context;
        query = query;
      } in
      let one : known name ≡ 1 = ground (arith, found) in
      rw (found, retry_one)
        (rw
          (finish_module-calls name p
            (retry_module out schema request max_retries_per_module p.calls))
          (omega (arith, one, retry_module-le out schema request max_retries_per_module p.calls)))
]

retry_each-le :
    (out : Outside) (model_id context query : String) (names : List String) (p : Progress)
    → length (retry_each out model_id context query names p).calls
      ≤ length p.calls + 2 * total known names
unfolding retry_each
retry_each-le out model_id context query [] p = omega arith
retry_each-le out model_id context query (name ∷ names) p = omega (
  arith,
  retry_each-le out model_id context query names (retry_one out model_id context query name p),
  retry_one-le out model_id context query name p,
)

-- The retry ends after a bounded number of calls: the model is asked at most twice for each reported
-- module that has a schema of its own, whatever it replies, and for no other name.
pub recursive_schema_retry-calls_le :
    (out : Outside) (model_id context query : String) (partial : Fields) (failed : List String)
    → length (recursive_schema_retry out model_id context query partial failed).0
      ≤ 2 * total known failed
unfolding recursive_schema_retry
recursive_schema_retry-calls_le out model_id context query partial failed = omega (
  arith,
  retry_each-le out model_id context query failed
      (record { merged = partial; unrecoverable = []; calls = [] }),
)
