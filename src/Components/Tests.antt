-- ===== src/Components/Tests.antt =====
-- Components found by their type, and the result applied to them.
use kweb.Base.{ℕ, ltb, if◌then◌else◌, Option, none, some, [], ◌∷◌, ok, err, ◌≡◌, refl}
use kweb.Components.Lookup.{
  multiple_components, matches, only, get_component_from_server, Chosen,
  get_component_from_server-Chosen,
}

-- The small numbers are the components of the type.
abbrev small : ℕ → Option ℕ
small n = if ltb n 10 then some n else none

find_one : get_component_from_server small (12 ∷ 3 ∷ 40 ∷ []) ≡ ok 3
unfolding get_component_from_server matches only
find_one = refl

find_two : get_component_from_server small (12 ∷ 3 ∷ 4 ∷ []) ≡ err multiple_components
unfolding get_component_from_server matches only
find_two = refl

get_component_from_server-Chosen_example :
    Chosen small (12 ∷ 3 ∷ 40 ∷ []) (get_component_from_server small (12 ∷ 3 ∷ 40 ∷ []))
get_component_from_server-Chosen_example = get_component_from_server-Chosen small (12 ∷ 3 ∷ 40 ∷ [])
