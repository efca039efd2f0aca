-- ===== src/Replies.antt =====
-- The cleaning of a model's reply before JSON.parse, which functions/recursive-retry.js,
-- functions/verification-loop.js and functions/index.js write out alike.
use sentinel_engine_sovereig.Base.{
  ℕ, zero, suc, Bool, true, false, none, some, [], ◌∷◌, length, eqb, ◌&&◌, ◌||◌, if◌then◌else◌,
}
use sentinel_engine_sovereig.SecurityManager.Patterns.{Text, codes, is_space, span, strip}

-- whether a text begins with "json" in any case
begins_with_json : Text → Bool
begins_with_json (a ∷ b ∷ c ∷ d ∷ text) =
    (eqb a b'j' || eqb a b'J')
    && (eqb b b's' || eqb b b'S')
    && (eqb c b'o' || eqb c b'O')
    && (eqb d b'n' || eqb d b'N')
begins_with_json text = false

-- replace(/```(json)?/gi, ''); `skip` counts what is left of a match
unfoldable pub strip_fences : ℕ → Text → Text
unfolding begins_with_json
strip_fences (suc skip) [] = []
strip_fences (suc skip) (c ∷ text) = strip_fences skip text
strip_fences zero [] = []
strip_fences zero (c ∷ text) = elim (strip (codes "```") (c ∷ text)) [
  | none ↦ c ∷ strip_fences zero text
  | some rest ↦ strip_fences (if begins_with_json rest then 6 else 2) text
]

trim_end : Text → Text
trim_end [] = []
trim_end (c ∷ text) = elim (trim_end text) [
  | [] ↦ if is_space c then [] else c ∷ []
  | d ∷ rest ↦ c ∷ d ∷ rest
]

-- trim()
unfoldable pub trim : Text → Text
unfolding trim_end
trim text = trim_end (span is_space text).1

begins_with_bracket : Text → Bool
begins_with_bracket [] = false
begins_with_bracket (c ∷ text) = eqb c b']' || eqb c b'}'

-- replace(/,\s*([\]}])/g, '$1')
unfoldable pub drop_commas : ℕ → Text → Text
unfolding begins_with_bracket
drop_commas (suc skip) [] = []
drop_commas (suc skip) (c ∷ text) = drop_commas skip text
drop_commas zero [] = []
drop_commas zero (c ∷ text) = elim (eqb c b',' && begins_with_bracket (span is_space text).1) [
  | true ↦ drop_commas (length (span is_space text).0) text
  | false ↦ c ∷ drop_commas zero text
]

-- the text that is parsed
unfoldable pub clean : Text → Text
unfolding strip_fences trim drop_commas
clean reply = drop_commas zero (trim (strip_fences zero reply))
