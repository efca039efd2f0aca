-- ===== src/KmsBridge/Ghosts.antt =====
-- functions/kms-bridge.js with functions/dilithium-rotation.js: which keys the audit destroys.
use Prim.Native.Char.{code}
use text.Mathlib.TextLemmas.{cons-append}
use mathlib.Core.List.{append-nil, append_assoc}
use sentinel_engine_sovereig.Base.{
  ℕ, ◌+◌, String, false, List, [], ◌∷◌, ◌++◌, ok, err, >>=-eq-ok, length, length-append, All,
  includes, ◌==◌, eq_iff, ◌⧺◌, ◌≡◌, refl, ap, sym, ◌∙◌, arith, Bool-cases, inl, inr,
}
use sentinel_engine_sovereig.KeyRotation.{KeyRow, Hub, private_path}
use sentinel_engine_sovereig.KeyRotation.Refines.{rotate_each, Call}
use sentinel_engine_sovereig.KeyRotation.Paths.{HasOwnPath, rotate_each-HasOwnPath}
use sentinel_engine_sovereig.KmsBridge.{
  SecretManager, Audit, destroy_version, referenced_paths, audit_versions, audit_secrets,
  cleanup_ghost_keys,
}

abbrev first_code : String → ℕ
first_code String.[] = 0
first_code (String.◌∷◌ c s) = code c

private_path-first : (id : String) → first_code (private_path id) ≡ b's'
unfolding private_path
private_path-first id = ap first_code (cons-append "s" "ecrets/" (id ⧺ "/private"))

-- the name of a version in Secret Manager: projects/<project>/secrets/<secret>/versions/<number>
abbrev pub IsVersionName : String → Type 0
IsVersionName name = (rest : String) × (name ≡ "projects/" ⧺ rest)

version-first : (name : String) → IsVersionName name → first_code name ≡ b'p'
version-first name (rest, named) =
    ap first_code named ∙ ap first_code (cons-append "p" "rojects/" rest)

own-ne-version : (id name : String) → IsVersionName name → (private_path id == name) ≡ false
own-ne-version id name named = elim (Bool-cases (private_path id == name)) [
  | inr apart ↦ apart
  | inl same ↦ absurd (
      omega (
        arith,
        private_path-first id,
        version-first name named,
        ap first_code ((eq_iff (private_path id) name).0 same),
      ))
]

unreferenced :
    (rows : List KeyRow) (name : String)
    → All HasOwnPath rows
    → IsVersionName name
    → includes (referenced_paths rows) name ≡ false
unfolding referenced_paths
unreferenced [] name own named = refl
unreferenced (row ∷ rows) name (inl bare, rest) named = rw bare (unreferenced rows name rest named)
unreferenced (row ∷ rows) name (inr (id, path), rest) named =
    rw path (rw (own-ne-version id name named) (unreferenced rows name rest named))

-- Everything that the loop counts is counted as destroyed and asked for, where no name is referenced.
abbrev Counted : List String → Audit → Audit → Type 0
Counted names before after =
    (after.asked ≡ before.asked ++ names)
    × (after.audited ≡ before.audited + length names)
    × (after.destroyed ≡ before.destroyed + length names)

destroy_version-named : (name : String) → IsVersionName name → destroy_version name ≡ name ∷ []
unfolding destroy_version
destroy_version-named name named = elim (Bool-cases (name == "")) [
  | inr filled ↦ rw filled refl
  | inl empty ↦
      absurd (omega (arith, version-first name named, ap first_code ((eq_iff name "").0 empty)))
]

audit_versions-Counted :
    (rows : List KeyRow) (names : List String) (before : Audit)
    → All HasOwnPath rows
    → All IsVersionName names
    → Counted names before (audit_versions (referenced_paths rows) names before)
unfolding audit_versions
audit_versions-Counted rows [] before own named =
    (sym (append-nil before.asked), omega arith, omega arith)
audit_versions-Counted rows (name ∷ names) before own (first, rest) =
    let next : Audit = record {
      audited = before.audited + 1;
      destroyed = before.destroyed + 1;
      asked = before.asked ++ destroy_version name;
    } in
    let (asked, audited, destroyed) = audit_versions-Counted rows names next own rest in
    rw (unreferenced rows name own first, audit_versions)
      (
        asked
            ∙ ap (λ (l : List String). (before.asked ++ l) ++ names)
                (destroy_version-named name first)
            ∙ append_assoc before.asked (name ∷ []) names,
        omega (arith, audited),
        omega (arith, destroyed),
      )

-- the versions of the secrets, in the order in which they are listed
abbrev pub versions_of : SecretManager → List String → List String
versions_of client [] = []
versions_of client (secret ∷ secrets) =
    elim (client.list_secret_versions secret) [ ok names ↦ names | err fault ↦ [] ]
    ++ versions_of client secrets

-- Secret Manager names its versions as documented
abbrev pub NamesVersions : SecretManager → Type 0
NamesVersions client =
    (secret : String) (names : List String)
    → client.list_secret_versions secret ≡ ok names
    → All IsVersionName names

audit_secrets-Counted :
    (client : SecretManager) (rows : List KeyRow) (secrets : List String) (before after : Audit)
    → All HasOwnPath rows
    → NamesVersions client
    → audit_secrets client (referenced_paths rows) secrets before ≡ ok after
    → Counted (versions_of client secrets) before after
unfolding audit_secrets
audit_secrets-Counted client rows [] before after own named h =
    let same : before ≡ after = ground (arith, h) in
    rw (← same) (sym (append-nil before.asked), omega arith, omega arith)
audit_secrets-Counted client rows (secret ∷ secrets) before after own named h =
    let (names, listed, later) = >>=-eq-ok (client.list_secret_versions secret) _ h in
    let middle = audit_versions (referenced_paths rows) names before in
    let (asked, audited, destroyed) =
      audit_versions-Counted rows names before own (named secret names listed) in
    let (asked', audited', destroyed') =
      audit_secrets-Counted client rows secrets middle after own named later in
    rw listed (
      asked'
          ∙ ap (λ (l : List String). l ++ versions_of client secrets) asked
          ∙ append_assoc before.asked names (versions_of client secrets),
      omega (arith, audited, audited', length-append names (versions_of client secrets)),
      omega (arith, destroyed, destroyed', length-append names (versions_of client secrets)),
    )

-- The audit of ghost keys destroys every key. Whatever rotations the table of keys comes from, since
-- it was empty: an audit that ends has asked Secret Manager to destroy each version of each secret
-- that it listed, those of the keys that sign included, and counts every one as destroyed. The paths
-- that rotations store are never names of versions, which begin with "projects/".
pub cleanup_destroys_all :
    (client : SecretManager) (show : ℕ → String) (calls : List Call) (hub : Hub)
    (secrets : List String) (audit : Audit)
    → hub.tenant_crypto_configs ≡ []
    → NamesVersions client
    → client.list_secrets ≡ ok secrets
    → cleanup_ghost_keys client (ok (rotate_each show calls hub).tenant_crypto_configs) ≡ ok audit
    → (audit.asked ≡ versions_of client secrets)
      × (audit.audited ≡ length (versions_of client secrets))
      × (audit.destroyed ≡ length (versions_of client secrets))
unfolding cleanup_ghost_keys
cleanup_destroys_all client show calls hub secrets audit fresh named listed h =
    let own = rotate_each-HasOwnPath show calls hub (rw fresh tt) in
    let (asked, audited, destroyed) =
      audit_secrets-Counted client (rotate_each show calls hub).tenant_crypto_configs secrets
        (record { audited = 0; destroyed = 0; asked = [] }) audit own named (rw listed at h) in
    (asked, omega (arith, audited), omega (arith, destroyed))
