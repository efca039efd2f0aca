-- ===== src/SecurityManager/Creation/Boot.antt =====
-- functions/security-manager.js: with which keys SecurityManager.create returns.
use sentinel_engine_sovereig.Base.{
  ℕ, String, false, ok, ltb, ◌≤◌, ◌==◌, eq_iff, ◌≡◌, ◌≢◌, ◌∙◌, refl, arith, Bool-cases, inl, inr,
}
use sentinel_engine_sovereig.SecurityManager.Providers.{
  Runtime, KeyPair, Provider, software, asymmetric, post_quantum, text_length, new_software,
  new_asymmetric, new_post_quantum,
}
use sentinel_engine_sovereig.SecurityManager.Creation.{
  Environment, Options, setting, create, create_software, create_asymmetric, create_post_quantum,
}

-- what the keys of a provider are worth
abbrev pub IsKeyed : Environment → Options → Provider → Type 0
IsKeyed environment options (software kms) =
    (16 ≤ text_length kms.sig_key)
    × (kms.sig_key ≡ setting options.signing_key environment.sentinel_signing_key)
IsKeyed environment options (asymmetric kms) =
    (setting options.private_key_pem environment.sentinel_private_key ≢ "")
    × (setting options.public_key_pem environment.sentinel_public_key ≢ "")
IsKeyed environment options (post_quantum kms) =
    kms.sig_key ≡ setting options.encryption_key environment.sentinel_encryption_key

long_key : (key : String) (n : ℕ) → ltb (text_length key) n ≡ false → n ≤ text_length key
long_key key n h = ground (arith, h)

create_software-IsKeyed :
    (environment : Environment) (options : Options) (encryption signing : String)
    (provider : Provider)
    → signing ≡ setting options.signing_key environment.sentinel_signing_key
    → create_software options encryption signing ≡ ok provider
    → (32 ≤ text_length encryption) × IsKeyed environment options provider
unfolding create_software new_software
create_software-IsKeyed environment options encryption signing (software kms) at h =
    (ground (arith, h), (ground (arith, h), ground (arith, h, at)))
create_software-IsKeyed environment options encryption signing (asymmetric kms) at h =
    absurd (ground (arith, h))
create_software-IsKeyed environment options encryption signing (post_quantum kms) at h =
    absurd (ground (arith, h))

create_asymmetric-IsKeyed :
    (runtime : Runtime) (environment : Environment) (options : Options)
    (encryption private public : String) (provider : Provider)
    → private ≡ setting options.private_key_pem environment.sentinel_private_key
    → public ≡ setting options.public_key_pem environment.sentinel_public_key
    → create_asymmetric runtime options encryption private public ≡ ok provider
    → (32 ≤ text_length encryption) × IsKeyed environment options provider
unfolding create_asymmetric new_asymmetric
create_asymmetric-IsKeyed runtime environment options encryption private public (asymmetric kms) at
      at' h =
    (
      ground (arith, h),
      (
        λ empty. absurd (ground (arith, h, at ∙ empty, eq_iff private "")),
        λ empty. absurd (ground (arith, h, at' ∙ empty, eq_iff public "")),
      ),
    )
create_asymmetric-IsKeyed runtime environment options encryption private public (software kms) at
      at' h =
    absurd (ground (arith, h))
create_asymmetric-IsKeyed runtime environment options encryption private public (post_quantum kms)
      at at' h =
    absurd (ground (arith, h))

create_post_quantum-IsKeyed :
    (pair : KeyPair) (environment : Environment) (options : Options) (encryption : String)
    (provider : Provider)
    → encryption ≡ setting options.encryption_key environment.sentinel_encryption_key
    → create_post_quantum pair options encryption ≡ ok provider
    → (32 ≤ text_length encryption) × IsKeyed environment options provider
unfolding create_post_quantum new_post_quantum
create_post_quantum-IsKeyed pair environment options encryption (post_quantum kms) at h =
    (ground (arith, h), ground (arith, h, at))
create_post_quantum-IsKeyed pair environment options encryption (software kms) at h =
    absurd (ground (arith, h))
create_post_quantum-IsKeyed pair environment options encryption (asymmetric kms) at h =
    absurd (ground (arith, h))

-- The engine does not start without keys. Whatever type is asked for, a manager that
-- SecurityManager.create returns has an encryption key of at least 32 characters, from the options or
-- else from the environment; and with the software provider a signing key of at least 16, with the
-- asymmetric one the texts of both keys of a pair. There is no other provider.
create-IsKeyed :
    (runtime : Runtime) (pair : KeyPair) (environment : Environment) (type : String)
    (options : Options) (provider : Provider)
    → create runtime pair environment type options ≡ ok provider
    → (32 ≤ text_length (setting options.encryption_key environment.sentinel_encryption_key))
      × IsKeyed environment options provider
unfolding create
create-IsKeyed runtime pair environment type options provider h =
    elim (Bool-cases (type == "software")) [
      | inl t ↦ create_software-IsKeyed environment options _ _ provider refl (rw (t, create) at h)
      | inr t1 ↦ elim (Bool-cases (type == "asymmetric")) [
        | inl t ↦
            create_asymmetric-IsKeyed runtime environment options _ _ _ provider refl refl
              (rw (t1, t, create) at h)
        | inr t2 ↦ elim (Bool-cases (type == "pq_lattice")) [
          | inl t ↦
              create_post_quantum-IsKeyed pair environment options _ provider refl
                (rw (t1, t2, t, create) at h)
          | inr t3 ↦ absurd (ground (arith, h, t1, t2, t3))
        ]
      ]
    ]
