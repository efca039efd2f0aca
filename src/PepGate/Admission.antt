-- ===== src/PepGate/Admission.antt =====
-- functions/pep-gate.js: who is admitted.
use sentinel_engine_sovereig.Base.{
  ◌≤◌, String, false, Option, none, some, List, [], ◌∷◌, ◌++◌, ok, >>=-eq-ok, length, or_null,
  or_text, ◌==◌, eq_iff, Bool-cases, Option-cases, ◌⊎◌, inl, inr, ◌≡◌, ◌≢◌, refl, ap, subst, ◌∙◌,
  arith,
}
use sentinel_engine_sovereig.SecurityManager.Patterns.{Text, codes, strip}
use sentinel_engine_sovereig.PepGate.{
  Claims, Firebase, SentinelContext, or_else, in_metadata, up_to_bearer, token_of, tenant_of,
  role_of, context_of, verify_pep, verify_with_firebase,
}

-- a value that `||` passes over
abbrev pub Unset : Option String → Type 0
Unset o = (o ≡ none) ⊎ (o ≡ some "")

-- A text is the first of these values that is set.
abbrev pub FirstSet : List (Option String) → String → Type 0
FirstSet [] s = ⊥
FirstSet (o ∷ os) s = ((o ≡ some s) × (s ≢ "")) ⊎ (Unset o × FirstSet os s)

-- the claims that name a tenant, and those that name a role, in their order
abbrev pub tenant_claims : Claims → List (Option String)
tenant_claims claims =
    claims.tenant_id
    ∷ in_metadata (λ m. m.tenant_id) claims.app_metadata
    ∷ in_metadata (λ m. m.tenant_id) claims.user_metadata
    ∷ []

abbrev pub role_claims : Claims → List (Option String)
role_claims claims =
    claims.role
    ∷ in_metadata (λ m. m.role) claims.app_metadata
    ∷ claims.user_role
    ∷ some "viewer"
    ∷ []

-- A header bears a token: "Bearer ", the token, and nothing more or another "Bearer ".
abbrev pub Bears : Option Text → Text → Type 0
Bears header token =
    (more : Text) × (header ≡ some (codes "Bearer " ++ (token ++ more)))
    × ((more ≡ []) ⊎ ((end : Text) × (more ≡ codes "Bearer " ++ end)))

filled-ne : (s : String) → (s == "") ≡ false → s ≢ ""
filled-ne s filled e = ground (arith, filled, (eq_iff s "").1 e)

or_null-else :
    (a b : Option String) (s : String)
    → or_null (or_else a b) ≡ some s
    → ((a ≡ some s) × (s ≢ "")) ⊎ (Unset a × (or_null b ≡ some s))
or_null-else none b s h = inr (inl refl, h)
or_null-else (some a) b s h = elim (Bool-cases (a == "")) [
  | inl empty ↦ inr (inr (ap some ((eq_iff a "").0 empty)), ground (arith, h, empty))
  | inr filled ↦
      let same : a ≡ s = ground (arith, h, filled) in
      inl (ap some same, subst (λ x. x ≢ "") same (filled-ne a filled))
]

or_null-set : (o : Option String) (s : String) → or_null o ≡ some s → (o ≡ some s) × (s ≢ "")
or_null-set none s h = absurd (ground (arith, h))
or_null-set (some a) s h = elim (Bool-cases (a == "")) [
  | inl empty ↦ absurd (ground (arith, h, empty))
  | inr filled ↦
      let same : a ≡ s = ground (arith, h, filled) in
      (ap some same, subst (λ x. x ≢ "") same (filled-ne a filled))
]

or_text-else :
    (a b : Option String) (s : String)
    → or_text (or_else a b) "viewer" ≡ s
    → ((a ≡ some s) × (s ≢ "")) ⊎ (Unset a × (or_text b "viewer" ≡ s))
or_text-else none b s h = inr (inl refl, h)
or_text-else (some a) b s h = elim (Bool-cases (a == "")) [
  | inl empty ↦ inr (inr (ap some ((eq_iff a "").0 empty)), ground (arith, h, empty))
  | inr filled ↦
      let same : a ≡ s = ground (arith, h, filled) in
      inl (ap some same, subst (λ x. x ≢ "") same (filled-ne a filled))
]

or_text-set :
    (o : Option String) (s : String) → or_text o "viewer" ≡ s → FirstSet (o ∷ some "viewer" ∷ []) s
or_text-set none s h =
    inr (inl refl, inl (ap some h, subst (λ x. x ≢ "") h (filled-ne "viewer" refl)))
or_text-set (some a) s h = elim (Bool-cases (a == "")) [
  | inl empty ↦
      let same : "viewer" ≡ s = ground (arith, h, empty) in
      inr (
        inr (ap some ((eq_iff a "").0 empty)),
        inl (ap some same, subst (λ x. x ≢ "") same (filled-ne "viewer" refl)),
      )
  | inr filled ↦
      let same : a ≡ s = ground (arith, h, filled) in
      inl (ap some same, subst (λ x. x ≢ "") same (filled-ne a filled))
]

tenant_of-FirstSet :
    (claims : Claims) (s : String) → tenant_of claims ≡ some s → FirstSet (tenant_claims claims) s
unfolding tenant_of
tenant_of-FirstSet claims s h = elim (or_null-else claims.tenant_id _ s h) [
  | inl here ↦ inl here
  | inr (unset, h1) ↦ inr (
    unset,
    elim (or_null-else (in_metadata (λ m. m.tenant_id) claims.app_metadata) _ s h1) [
      | inl here ↦ inl here
      | inr (unset', h2) ↦ inr (unset', inl (or_null-set _ s h2))
    ],
  )
]

role_of-FirstSet : (claims : Claims) → FirstSet (role_claims claims) (role_of claims)
unfolding role_of
role_of-FirstSet claims = elim (or_text-else claims.role _ (role_of claims) refl) [
  | inl here ↦ inl here
  | inr (unset, h1) ↦ inr (
    unset,
    elim (or_text-else (in_metadata (λ m. m.role) claims.app_metadata) _ (role_of claims) h1) [
      | inl here ↦ inl here
      | inr (unset', h2) ↦ inr (unset', or_text-set claims.user_role (role_of claims) h2)
    ],
  )
]

strip_sound : (prefix text rest : Text) → strip prefix text ≡ some rest → text ≡ prefix ++ rest
unfolding strip
strip_sound [] text rest h = ground (arith, h)
strip_sound (p ∷ prefix) [] rest h = absurd (ground (arith, h))
strip_sound (p ∷ prefix) (c ∷ text) rest h = ground (arith, h, strip_sound prefix text rest)

up_to_bearer-rest :
    (text : Text)
    → (more : Text) × (text ≡ up_to_bearer text ++ more)
      × ((more ≡ []) ⊎ ((end : Text) × (more ≡ codes "Bearer " ++ end)))
unfolding up_to_bearer
up_to_bearer-rest [] = ([], refl, inl refl)
up_to_bearer-rest (c ∷ text) = elim (Option-cases (strip (codes "Bearer ") (c ∷ text))) [
  | inl inside ↦
      let (more, whole, ends) = up_to_bearer-rest text in
      (more, rw (inside, up_to_bearer) (ap (λ (t : Text). c ∷ t) whole), ends)
  | inr (end, found) ↦ (
    c ∷ text,
    rw (found, up_to_bearer) refl,
    inr (end, strip_sound (codes "Bearer ") (c ∷ text) end found),
  )
]

token_of_sound :
    (header : Option Text) (token : Text)
    → token_of header ≡ ok token
    → Bears header token × (10 ≤ length token)
unfolding token_of
token_of_sound none token h = absurd (ground (arith, h))
token_of_sound (some header) token h = elim (Option-cases (strip (codes "Bearer ") header)) [
  | inl bare ↦ absurd (ground (arith, h, bare))
  | inr (rest, bearer) ↦
      let same : up_to_bearer rest ≡ token = ground (arith, h, bearer) in
      let (more, whole, ends) = up_to_bearer-rest rest in
      (
        (
          more,
          ap some (
              strip_sound (codes "Bearer ") header rest bearer
              ∙ ap (λ (t : Text). codes "Bearer " ++ t)
                  (whole ∙ ap (λ (t : Text). t ++ more) same)),
          ends,
        ),
        ground (arith, h, bearer),
      )
]

context_of-fields :
    (now : String) (claims : Claims) (ctx : SentinelContext)
    → context_of now claims ≡ ok ctx
    → (tenant_of claims ≡ some ctx.tenant_id) × (role_of claims ≡ ctx.user_role)
unfolding context_of
context_of-fields now claims ctx h = elim (Option-cases (tenant_of claims)) [
  | inl missing ↦ absurd (ground (arith, h, missing))
  | inr (tenant, at) ↦ (ground (arith, h, at), ground (arith, h, at))
]

-- Nobody is admitted without a verified token that names a tenant: the header is "Bearer " and a token
-- of at least ten characters, up to its end or to another "Bearer "; Firebase verified that token; the
-- tenant of the context is the first that is set, and so not empty, of the claim tenant_id and those
-- in app_metadata and in user_metadata; and the role is the first that is set of the claim role, the
-- one in app_metadata and the claim user_role, or "viewer".
pub verify_pep-IsVerified :
    (firebase : Firebase) (now : String) (header : Option Text) (ctx : SentinelContext)
    → verify_pep firebase now header ≡ ok ctx
    → (token : Text) × (claims : Claims) × Bears header token
      × (10 ≤ length token)
      × (firebase token ≡ some claims)
      × FirstSet (tenant_claims claims) ctx.tenant_id
      × FirstSet (role_claims claims) ctx.user_role
unfolding verify_pep verify_with_firebase
verify_pep-IsVerified firebase now header ctx h =
    let (token, borne, h1) = >>=-eq-ok (token_of header) _ h in
    let (claims, verified, h2) = >>=-eq-ok (verify_with_firebase firebase token) _ h1 in
    let (tenant, role) = context_of-fields now claims ctx h2 in
    let (bears, long) = token_of_sound header token borne in
    (
      token,
      claims,
      bears,
      long,
      by_firebase token claims verified,
      tenant_of-FirstSet claims ctx.tenant_id tenant,
      subst (λ r. FirstSet (role_claims claims) r) role (role_of-FirstSet claims),
    )
  where
    by_firebase :
        (token : Text) (claims : Claims)
        → verify_with_firebase firebase token ≡ ok claims
        → firebase token ≡ some claims
    by_firebase token claims verified = elim (Option-cases (firebase token)) [
      | inl rejected ↦ absurd (ground (arith, verified, rejected))
      | inr (found, e) ↦ ground (arith, verified, e)
    ]
