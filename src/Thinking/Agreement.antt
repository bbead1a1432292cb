-- ===== src/Thinking/Agreement.antt =====
-- The map of src/platform/thinking-levels.ts tells the model library the same levels.
use plastic_wan.Base.{
  ◌≡◌, refl, ◌∙◌, Bool, true, false, not, Option, none, some, List, [], ◌∷◌, if◌then◌else◌, filter,
  Bool-cases, inl, inr, arith,
}
use plastic_wan.Thinking.Levels.{
  Level, off, minimal, low, medium, high, xhigh, max_level, thinking_levels, LevelSource, includes,
  supported_of, supported_thinking_levels, MapEntry, unmapped, unsupported, mapped, LevelMap,
  is_extended, map_entry, map_of, thinking_level_map,
}

-- How the library reads an entry: `null` marks a level as unsupported, and `xhigh` and `max` are
-- supported only when mapped.
abbrev pub accepts : Level → MapEntry → Bool
accepts level unmapped = not (is_extended level)
accepts level unsupported = false
accepts level (mapped wire) = true

abbrev pub entry_of : Option LevelMap → LevelMap
entry_of none level = unmapped
entry_of (some entries) level = entries level

-- The documented behaviour of the library's `getSupportedThinkingLevels`.
pub record IsLibrary (get_supported : Bool → Option LevelMap → List Level) : Type 0 where
  pub of_plain : (entries : Option LevelMap) → get_supported false entries ≡ off ∷ []
  pub of_reasoning :
      (entries : Option LevelMap)
      → get_supported true entries
        ≡ filter (λ level. accepts level (entry_of entries level)) thinking_levels

accepts-map_entry :
    (declared : List Level) (level : Level)
    → accepts level (map_entry declared level) ≡ includes declared level
unfolding map_entry
accepts-map_entry declared level = elim (Bool-cases (includes declared level)) [
  | inl e ↦ rw e (extended level)
  | inr e ↦ rw e refl
]
  where
    extended :
        (level : Level)
        → accepts level (if is_extended level then mapped level else unmapped) ≡ true
    extended off = refl
    extended minimal = refl
    extended low = refl
    extended medium = refl
    extended high = refl
    extended xhigh = refl
    extended max_level = refl

filter-same :
    (p q : Level → Bool) (levels : List Level)
    → ((l : Level) → p l ≡ q l)
    → filter p levels ≡ filter q levels
filter-same p q [] h = refl
filter-same p q (l ∷ levels) h = ground (arith, h l, filter-same p q levels h)

-- For a library that behaves as documented, the levels that it supports with the registered map are
-- those that the model is configured to accept, in the same order.
pub thinking_level_map-agrees :
    (get_supported : Bool → Option LevelMap → List Level) (model : LevelSource)
    → IsLibrary get_supported
    → get_supported model.reasoning (thinking_level_map model) ≡ supported_thinking_levels model
unfolding thinking_level_map supported_thinking_levels map_of supported_of
thinking_level_map-agrees get_supported model lib = agrees model.reasoning model.declared
  where
    agrees :
        (reasoning : Bool) (declared : Option (List Level))
        → get_supported reasoning (if not reasoning then none else map_of declared)
          ≡ (if not reasoning then off ∷ [] else supported_of declared)
    agrees false declared = lib.of_plain none
    agrees true none = lib.of_reasoning none
    agrees true (some declared) =
        lib.of_reasoning (some (map_entry declared))
        ∙ filter-same _ (includes declared) thinking_levels (accepts-map_entry declared)
