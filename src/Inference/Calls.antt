-- ===== src/Inference/Calls.antt =====
-- functions/index.js with functions/recursive-retry.js: how often the model is asked for an answer.
use sentinel_engine_sovereig.Base.{
  String, List, ℕ, zero, suc, ◌+◌, ◌≤◌, false, Option, none, some, length, Result, ok, err,
  Option-cases, inl, inr, ◌≡◌, ◌⊎◌, refl, ap, arith,
}
use sentinel_engine_sovereig.SecurityManager.Patterns.{Text}
use sentinel_engine_sovereig.Replies.{clean}
use sentinel_engine_sovereig.Schemas.Values as Values
use sentinel_engine_sovereig.Schemas.Values.{Json, Fields, field_of}
use sentinel_engine_sovereig.Schemas.{Zod, Validation, validated, validate_inference_response}
use sentinel_engine_sovereig.Schemas.Reports.{total, validated-total}
use sentinel_engine_sovereig.RecursiveRetry.{
  Calls, sub_schema, valid_result, recursive_schema_retry,
}
use sentinel_engine_sovereig.RecursiveRetry.Bounds.{
  known, known-le, recursive_schema_retry-calls_le,
}
use sentinel_engine_sovereig.RecursiveRetry.Answers.{recursive_schema_retry-returns}
use sentinel_engine_sovereig.Inference.{
  Outside, Question, spread, retried, recovered, read_answer, generate_from, max_attempts, infer,
}

retried-ok :
    (result : Calls × Result Values.Fault Json) (answer : Json)
    → result.1 ≡ ok answer
    → retried result ≡ (length result.0, some answer)
unfolding retried
retried-ok (calls, ok value) answer h =
    let same : value ≡ answer = ground (arith, h) in rw same refl
retried-ok (calls, err fault) answer h = absurd (ground (arith, h))

-- a validation either gives an answer with no further call, or the retry does
recovered-cases :
    (out : Outside) (q : Question) (parsed : Json) (v : Validation)
    → total known v.failed_modules ≤ 3
    → (answer : Json) × ((recovered out q parsed v).1 ≡ some answer)
      × ((recovered out q parsed v).0 ≤ 6)
unfolding recovered retried
recovered-cases out q parsed v few = elim (Option-cases (valid_result v)) [
  | inr (value, found) ↦ (value, rw (found, recovered) refl, rw (found, recovered) (omega arith))
  | inl invalid ↦
      let partial = spread out.show parsed in
      let (answer, returned, _) =
        recursive_schema_retry-returns out.retry q.model_id q.context_payload q.query partial
          v.failed_modules in
      let result =
        recursive_schema_retry out.retry q.model_id q.context_payload q.query partial
          v.failed_modules in
      let counted : retried result ≡ (length result.0, some answer) =
        retried-ok result answer returned in
      let bound =
        recursive_schema_retry-calls_le out.retry q.model_id q.context_payload q.query partial
          v.failed_modules in
      (
        answer,
        rw (invalid, recovered) (ap (λ (r : ℕ × Option Json). r.1) counted),
        rw (invalid, recovered)
            (omega (arith, ap (λ (r : ℕ × Option Json). r.0) counted, bound, few)),
      )
]

reported-le :
    (zod : Zod) (domain : String) (answer : Json) (parsed : Result (List String) Json)
    (v : Validation)
    → validated zod domain answer parsed ≡ ok v
    → total known v.failed_modules ≤ 3
unfolding sub_schema
reported-le zod domain answer parsed v h =
    validated-total known zod domain answer parsed v known-le refl refl h

read_answer-cases :
    (out : Outside) (q : Question) (reply : Text)
    → (read_answer out q reply ≡ (0, none))
      ⊎ ((answer : Json) × ((read_answer out q reply).1 ≡ some answer)
          × ((read_answer out q reply).0 ≤ 6))
unfolding read_answer validate_inference_response
read_answer-cases out q reply = go (out.retry.parse (clean reply)) refl
  where
    checked :
        (parsed : Json) (result : Result Values.Fault Validation)
        → out.retry.parse (clean reply) ≡ some parsed
        → validate_inference_response out.retry.zod parsed q.industry_domain false ≡ result
        → (read_answer out q reply ≡ (0, none))
          ⊎ ((answer : Json) × ((read_answer out q reply).1 ≡ some answer)
              × ((read_answer out q reply).0 ≤ 6))
    checked parsed (err fault) e h = inl (rw (e, read_answer) (rw h refl))
    checked parsed (ok v) e h =
        let (answer, is, bound) =
          recovered-cases out q parsed v
            (reported-le out.retry.zod q.industry_domain parsed _ v h) in
        inr (answer, rw (e, read_answer) (rw h is), rw (e, read_answer) (rw h bound))

    go :
        (found : Option Json)
        → out.retry.parse (clean reply) ≡ found
        → (read_answer out q reply ≡ (0, none))
          ⊎ ((answer : Json) × ((read_answer out q reply).1 ≡ some answer)
              × ((read_answer out q reply).0 ≤ 6))
    go none e = inl (rw (e, read_answer) refl)
    go (some parsed) e = checked parsed _ e refl

generate_from-le :
    (out : Outside) (q : Question) (left attempt : ℕ)
    → (generate_from out q left attempt).0 ≤ left + 6
unfolding generate_from
generate_from-le out q zero attempt = omega arith
generate_from-le out q (suc left) attempt = elim (Option-cases (out.generate attempt)) [
  | inl failed ↦ rw (failed, generate_from) (omega arith)
  | inr (reply, replied) ↦
      let later = generate_from-le out q left (suc attempt) in
      elim (read_answer-cases out q reply) [
        | inl caught ↦
            rw (replied, generate_from)
              (rw (ap (λ (r : ℕ × Option Json). r.1) caught)
                (omega (arith, later, ap (λ (r : ℕ × Option Json). r.0) caught)))
        | inr (answer, is, bound) ↦ rw (replied, generate_from) (rw is (omega (arith, bound)))
      ]
]

-- The model is asked at most eight times for the answer to a question, the retry included, whatever it
-- replies.
pub infer-calls_le : (out : Outside) (q : Question) → (infer out q).0 ≤ 8
unfolding infer
infer-calls_le out q = generate_from-le out q max_attempts 0
