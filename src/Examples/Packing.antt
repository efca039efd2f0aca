-- ===== src/Examples/Packing.antt =====
-- functions/adapters/context-packer.js on two rows and one warning, with a `trim` that keeps every
-- text as it is.
use Prim.Native.String.{count}
use sentinel_engine_sovereig.Base.{String, some, List, [], ◌∷◌, ◌+◌, ◌≤◌, ◌≡◌, refl, arith}
use sentinel_engine_sovereig.ContextPacker.{max_context_bytes, Trim, join, pack_external_context}
use sentinel_engine_sovereig.ContextPacker.Budget.{Shortens, pack_external_context-le}

abbrev trim : Trim
trim text = text

trim-Shortens : Shortens trim
trim-Shortens text = omega arith

abbrev rows : List String
rows = "ports are open" ∷ "rates fell" ∷ []

two_rows_packed : pack_external_context trim rows [] ≡ some "ports are open\nrates fell"
unfolding pack_external_context join
two_rows_packed = refl

pack_external_context-le_example : count "ports are open\nrates fell" ≤ max_context_bytes + 13
pack_external_context-le_example =
    pack_external_context-le trim rows [] "ports are open\nrates fell" trim-Shortens two_rows_packed
