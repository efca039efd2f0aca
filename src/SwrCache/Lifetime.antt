-- ===== src/SwrCache/Lifetime.antt =====
-- functions/swr-cache.js: TTL_RULES, classifyQueryTTL and cacheKey. The case, the blanks and the hash
-- of a text are those of the runtime, which is a parameter.
use text.Mathlib.Text
use sentinel_engine_sovereig.Base.{
  ℕ, String, Bool, true, false, Option, none, some, List, [], ◌∷◌, any, find?, ◌⧺◌, take_text,
}

-- toLowerCase, trim, and the SHA-256 of a text in hexadecimal
pub record Runtime : Type 0 where
  pub to_lower_case : String → String
  pub trim : String → String
  pub sha256 : String → String

pub record TtlRule : Type 0 where
  pub category : String
  pub ttl : ℕ
  pub patterns : List String

abbrev pub mission_critical : TtlRule
mission_critical = record {
  category = "MISSION_CRITICAL";
  ttl = 300;
  patterns =
      "chokepoint" ∷ "suez" ∷ "panama" ∷ "hormuz" ∷ "malacca" ∷ "bosphorus" ∷ "security" ∷ "piracy"
      ∷ "sanction" ∷ "embargo" ∷ "threat" ∷ "kill switch" ∷ "revocation" ∷ "critical" ∷ "emergency"
      ∷ [];
}

abbrev pub operational : TtlRule
operational = record {
  category = "OPERATIONAL";
  ttl = 3600;
  patterns =
      "port" ∷ "berth" ∷ "traffic" ∷ "vessel" ∷ "anchor" ∷ "congestion" ∷ "queue" ∷ "wait"
      ∷ "transit" ∷ "delay" ∷ "AIS" ∷ "vessel_risk" ∷ "turnaround" ∷ "capacity" ∷ "schedule" ∷ [];
}

abbrev pub static_rule : TtlRule
static_rule = record {
  category = "STATIC";
  ttl = 86400;
  patterns =
      "contract" ∷ "rate" ∷ "tariff" ∷ "agreement" ∷ "baseline" ∷ "benchmark" ∷ "historical"
      ∷ "trend" ∷ "index" ∷ "FBX" ∷ "BDI" ∷ "long-term" ∷ "policy" ∷ "regulation" ∷ "compliance"
      ∷ [];
}

-- TTL_RULES
abbrev pub ttl_rules : List TtlRule
ttl_rules = mission_critical ∷ operational ∷ static_rule ∷ []

-- q.includes(p)
abbrev pub mentions : String → String → Bool
mentions q p = elim (Text.find? q p) [ none ↦ false | some at ↦ true ]

abbrev pub applies : String → TtlRule → Bool
applies q rule = any (mentions q) rule.patterns

abbrev or_operational : Option TtlRule → String × ℕ
or_operational none = ("OPERATIONAL", 3600)
or_operational (some rule) = (rule.category, rule.ttl)

unfoldable pub classify_query_ttl : Runtime → String → String × ℕ
classify_query_ttl runtime query =
    or_operational (find? (applies (runtime.to_lower_case query)) ttl_rules)

unfoldable pub cache_key : Runtime → String → String → String
cache_key runtime tenant_id query =
    "sentinel:"
    ⧺ tenant_id
    ⧺ ":"
    ⧺ take_text 16 (runtime.sha256 (runtime.trim (runtime.to_lower_case query)))
