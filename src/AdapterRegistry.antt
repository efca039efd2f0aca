-- ===== src/AdapterRegistry.antt =====
-- functions/adapters/adapter-registry.js: the plugins that register at boot, and the lock.
pub mod Contracts
use sentinel_engine_sovereig.Base.{
  String, Bool, true, false, Option, none, some, List, [], ◌∷◌, Result, ok, err, Table, lookup,
  insert, not, ◌||◌, if◌then◌else◌,
}

pub data Fault : Type 0 where
  security_violation no_object not_signal_aware no_fetch no_health_check : Fault

-- how a health check ends under the signal: it resolves, or it throws, with what the error shows
pub data HealthOutcome : Type 0 where
  resolves : HealthOutcome
  throws : Bool → Bool → HealthOutcome

-- an adapterSpec: whether it is an object that is not null, what it declares, and whether its two
-- methods are functions
pub record AdapterSpec : Type 0 where
  pub is_object : Bool
  pub is_signal_aware : Bool
  pub has_fetch : Bool
  pub has_health_check : Bool
  pub health_check : HealthOutcome

pub record AdapterRegistry : Type 0 where
  pub registry : Table AdapterSpec
  pub locked : Bool

abbrev pub initial_registry : AdapterRegistry
initial_registry = record { registry = []; locked = false }

unfoldable pub register : String → AdapterSpec → AdapterRegistry → Result Fault AdapterRegistry
register id spec r =
    if r.locked
    then err security_violation
    else if not spec.is_object
    then err no_object
    else if not spec.is_signal_aware
    then err not_signal_aware
    else if not spec.has_fetch
    then err no_fetch
    else if not spec.has_health_check
    then err no_health_check
    else ok (record r { registry = insert id spec r.registry })

-- the result of a health check: an error whose message or name tells of an abort is one
proves : HealthOutcome → Bool
proves resolves = true
proves (throws message_says_abort named_abort_error) = message_says_abort || named_abort_error

unfoldable pub verify_signal_contract : String → AdapterRegistry → Bool
unfolding proves
verify_signal_contract id r = elim (lookup id r.registry) [
  | none ↦ false
  | some spec ↦ proves spec.health_check
]

-- Object.freeze on a Map does not keep its entries
unfoldable pub lock : AdapterRegistry → AdapterRegistry
lock r = record r { locked = true }

unfoldable pub get : String → AdapterRegistry → Option AdapterSpec
get id r = lookup id r.registry

unfoldable pub has : String → AdapterRegistry → Bool
has id r = elim (lookup id r.registry) [ none ↦ false | some spec ↦ true ]

abbrev keys : Table AdapterSpec → List String
keys [] = []
keys ((id, spec) ∷ rest) = id ∷ keys rest

unfoldable pub get_registered_ids : AdapterRegistry → List String
get_registered_ids r = keys r.registry

-- the calls that change the registry; a registration that throws changes nothing
pub data Call : Type 0 where
  registers : String → AdapterSpec → Call
  locks : Call

unfoldable pub step : Call → AdapterRegistry → AdapterRegistry
step locks r = lock r
step (registers id spec) r = elim (register id spec r) [ ok r' ↦ r' | err fault ↦ r ]

unfoldable pub run : List Call → AdapterRegistry → AdapterRegistry
run [] r = r
run (call ∷ calls) r = run calls (step call r)
