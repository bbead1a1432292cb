-- ===== src/Thinking/Levels.antt =====
-- The thinking levels of a configured model and the map that is registered for it
-- (src/platform/thinking-levels.ts).
use plastic_wan.Base.{
  ℕ, Bool, true, false, not, Option, none, some, List, [], ◌∷◌, ◌==◌, if◌then◌else◌, any, filter,
}

pub data Level : Type 0 where
  off minimal low medium high xhigh max_level : Level

abbrev pub thinking_levels : List Level
thinking_levels = off ∷ minimal ∷ low ∷ medium ∷ high ∷ xhigh ∷ max_level ∷ []

abbrev pub undeclared_reasoning_levels : List Level
undeclared_reasoning_levels = off ∷ minimal ∷ low ∷ medium ∷ high ∷ []

pub record LevelSource : Type 0 where
  pub reasoning : Bool
  pub declared : Option (List Level)

abbrev pub rank : Level → ℕ
rank off = 0
rank minimal = 1
rank low = 2
rank medium = 3
rank high = 4
rank xhigh = 5
rank max_level = 6

unfoldable pub includes : List Level → Level → Bool
includes declared level = any (λ l. rank l == rank level) declared

unfoldable pub supported_of : Option (List Level) → List Level
unfolding includes
supported_of none = undeclared_reasoning_levels
supported_of (some declared) = filter (includes declared) thinking_levels

unfoldable pub supported_thinking_levels : LevelSource → List Level
unfolding supported_of
supported_thinking_levels model =
    if not model.reasoning then off ∷ [] else supported_of model.declared

-- What the map has under a level: nothing, `null`, or a wire value.
pub data MapEntry : Type 0 where
  unmapped unsupported : MapEntry
  mapped : Level → MapEntry

abbrev pub LevelMap : Type 0
LevelMap = Level → MapEntry

-- `level === 'xhigh' || level === 'max'`
abbrev pub is_extended : Level → Bool
is_extended xhigh = true
is_extended max_level = true
is_extended _ = false

-- One round of the loop.
unfoldable pub map_entry : List Level → LevelMap
unfolding includes
map_entry declared level =
    if not (includes declared level)
    then unsupported
    else if is_extended level
    then mapped level
    else unmapped

unfoldable pub map_of : Option (List Level) → Option LevelMap
unfolding map_entry
map_of none = none
map_of (some declared) = some (map_entry declared)

unfoldable pub thinking_level_map : LevelSource → Option LevelMap
unfolding map_of
thinking_level_map model = if not model.reasoning then none else map_of model.declared
