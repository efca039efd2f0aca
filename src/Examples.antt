-- ===== src/Examples.antt =====
-- Concrete inputs on which the theorems of each part apply.
mod Units
mod Decisions
mod Authorities
mod Evidence
mod Escalations
mod Answers
mod Packing
mod Rollbacks
mod Keys
mod Rotations
mod Secrets
mod Zods
mod Audits
mod Inferences
mod Sidecar
