-- ===== src/Thinking/Tests.antt =====
-- A model that declares two levels.
use plastic_wan.Base.{◌≡◌, refl, Bool, true, false, Option, some, List, [], ◌∷◌, filter}
use plastic_wan.Thinking.Levels.{
  Level, off, low, max_level, thinking_levels, LevelSource, LevelMap, supported_thinking_levels,
  thinking_level_map, includes,
}
use plastic_wan.Thinking.Agreement.{accepts, entry_of, IsLibrary, thinking_level_map-agrees}

abbrev library : Bool → Option LevelMap → List Level
library false entries = off ∷ []
library true entries = filter (λ level. accepts level (entry_of entries level)) thinking_levels

library-IsLibrary : IsLibrary library
library-IsLibrary = record { of_plain = λ entries. refl; of_reasoning = λ entries. refl }

abbrev model : LevelSource
model = record { reasoning = true; declared = some (max_level ∷ low ∷ []) }

thinking_level_map-agrees_example :
    library true (thinking_level_map model) ≡ supported_thinking_levels model
thinking_level_map-agrees_example = thinking_level_map-agrees library model library-IsLibrary

weakest_first : supported_thinking_levels model ≡ low ∷ max_level ∷ []
unfolding supported_thinking_levels includes
weakest_first = refl
