-- ===== src/Schemas/Shapes.antt =====
-- functions/schemas.js: the schemas of an answer, as values.
use sentinel_engine_sovereig.Base.{ℕ, String, List, [], ◌∷◌}
use sentinel_engine_sovereig.Base.Int.{ℤ, pos}
use sentinel_engine_sovereig.Schemas.Values.{
  Json, arr, str, obj, no_items, no_fields, member, one_unit,
}

-- z.string(), z.number().min(..).max(..), z.enum([..]), z.array(..).max(..), z.object({..}), and
-- .optional() and .default(..); descriptions are left out
mutual
  pub data Schema : Type 0 where
    string number boolean : Schema
    number_between : ℤ → ℤ → Schema
    enumeration : List String → Schema
    array : Schema → Schema
    array_max : ℕ → Schema → Schema
    object : Shape → Schema
    optional : Schema → Schema
    default_to : Json → Schema → Schema

  pub data Shape : Type 0 where
    end : Shape
    field : String → Schema → Shape → Shape

abbrev levels : List String
levels = "LOW" ∷ "MEDIUM" ∷ "HIGH" ∷ "CRITICAL" ∷ []

abbrev unit_interval : Schema
unit_interval = number_between (pos 0) (pos one_unit)

abbrev pub region_schema : Schema
region_schema = object (
    field "name" string (
      field "coordinates" (optional string) (
        field "congestionLevel"
          (optional (enumeration ("LOW" ∷ "MODERATE" ∷ "HIGH" ∷ "CRITICAL" ∷ [])))
          (field "portStatus" (optional string) end))))

abbrev pub corridor_schema : Schema
corridor_schema = object (
    field "origin" string (
      field "destination" string (
        field "transitDays" (optional number)
          (field "riskLevel" (optional (enumeration levels)) end))))

abbrev pub geography_schema : Schema
geography_schema = object (
    field "regions" (default_to (arr no_items) (array_max 5 region_schema))
      (field "corridors" (default_to (arr no_items) (array_max 3 corridor_schema)) end))

abbrev pub risk_factor_schema : Schema
risk_factor_schema = object (
    field "name" string (
      field "severity" (enumeration levels) (
        field "probability" unit_interval (
          field "impactWindow" (optional string)
            (field "mitigationStrategy" (optional string) end)))))

abbrev pub risk_matrix_schema : Schema
risk_matrix_schema = object (
    field "factors" (default_to (arr no_items) (array_max 5 risk_factor_schema))
      (field "overallRisk" (default_to (str "MEDIUM") (enumeration levels)) end))

abbrev pub recommendation_schema : Schema
recommendation_schema = object (
    field "action" string (
      field "priority"
        (default_to (str "MEDIUM") (enumeration ("LOW" ∷ "MEDIUM" ∷ "HIGH" ∷ "URGENT" ∷ [])))
        (field "deadline" (optional string) (field "confidence" (optional unit_interval) end))))

abbrev pub metric_schema : Schema
metric_schema = object (
    field "label" string (
      field "value" string (
        field "trend" (optional (enumeration ("up" ∷ "down" ∷ "stable" ∷ [])))
          (field "confidence" (optional unit_interval) end))))

abbrev pub compliance_schema : Schema
compliance_schema = object (
    field "risk_tier" (enumeration ("UNACCEPTABLE" ∷ "HIGH" ∷ "LIMITED" ∷ "MINIMAL" ∷ [])) (
      field "compliance_markers" (array string) (
        field "human_oversight_status" (enumeration ("REQUIRED" ∷ "ACTIVE" ∷ "DELEGATED" ∷ []))
          (field "transparency_label" string end))))

abbrev pub executive_action_schema : Schema
executive_action_schema = object (
    field "classification" (enumeration ("SENSITIVE" ∷ "HIGH_IMPACT" ∷ "ROUTINE" ∷ [])) (
      field "decision" (enumeration ("permit" ∷ "deny" ∷ "escalate" ∷ "attenuate" ∷ [])) (
        field "rationale" string (
          field "monotonic_reduction_active" boolean (
            field "eu_ai_act_compliance" compliance_schema (
              field "audit_evidence_id" string (
                field "narrative" (optional string) (
                  field "recommendations"
                    (default_to (arr no_items) (array_max 5 recommendation_schema))
                    (field "metrics" (default_to (arr no_items) (array_max 3 metric_schema))
                      end)))))))))

abbrev pub empty_geography : Json
empty_geography =
    obj (member "regions" (arr no_items) (member "corridors" (arr no_items) no_fields))

abbrev pub empty_risk_matrix : Json
empty_risk_matrix =
    obj (member "factors" (arr no_items) (member "overallRisk" (str "MEDIUM") no_fields))

-- the fields that every schema of an answer ends with
abbrev pub core_fields : Shape
core_fields = field "executiveAction" executive_action_schema (
    field "confidence" unit_interval
      (field "sources" (array_max 3 string) (field "dataAuthority" (optional string) end)))

abbrev pub inference_response_schema : Schema
inference_response_schema = object (
    field "geography" (default_to empty_geography (optional geography_schema))
      (field "riskMatrix" (default_to empty_risk_matrix (optional risk_matrix_schema)) core_fields))

abbrev pub grid_status_schema : Schema
grid_status_schema = optional (
    object (
      field "activeAlerts" (default_to (arr no_items) (array string))
        (field "loadMegawatts" (optional number) (field "capacityMargin" (optional number) end))))

abbrev pub energy_schema : Schema
energy_schema = object (
    field "gridStatus" grid_status_schema
      (field "riskMatrix" (default_to empty_risk_matrix (optional risk_matrix_schema)) core_fields))

abbrev pub degraded_logistics_ext_schema : Schema
degraded_logistics_ext_schema = object (
    field "geography" (optional geography_schema)
      (field "riskMatrix" (optional risk_matrix_schema) end))

abbrev pub degraded_energy_ext_schema : Schema
degraded_energy_ext_schema =
    object
      (field "gridStatus" grid_status_schema (field "riskMatrix" (optional risk_matrix_schema) end))

abbrev pub core_schema : Schema
core_schema = object core_fields
