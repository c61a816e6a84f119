-- ===== src/Api/Routes.antt =====
-- internal/api/handler.go: the patterns that New registers, and how http.ServeMux picks one for a path.
-- A path is clean: the mux redirects any other to its clean form.
mod Tests
use grepod.Prelude.{
  ℕ, Bool, true, false, Option, none, some, List, [], ◌∷◌, length, ltb, if◌then◌else◌, ◌||◌, not,
  Text, codes, text_beq, has_prefix, has_suffix, ◌≡◌, refl,
}

pub data Route : Type 0 where
  search_route tail_route known_route healthz_route readyz_route metrics_route static_route
        index_route :
      Route

abbrev pub patterns : List (Text × Route)
patterns =
    (codes "/api/search", search_route)
    ∷ (codes "/api/tail", tail_route)
    ∷ (codes "/api/known", known_route)
    ∷ (codes "/healthz", healthz_route)
    ∷ (codes "/readyz", readyz_route)
    ∷ (codes "/metrics", metrics_route)
    ∷ (codes "/static/", static_route)
    ∷ (codes "/", index_route)
    ∷ []

-- A pattern that ends in a slash stands for all that begins with it.
abbrev pub matches : Text → Text → Bool
matches pattern path =
    if has_suffix pattern (codes "/") then has_prefix path pattern else text_beq path pattern

-- The longest of the patterns that match.
abbrev pub longest : Text → List (Text × Route) → Option (Text × Route)
longest path [] = none
longest path ((pattern, route) ∷ rest) =
    let later = longest path rest in
    let here : Option (Text × Route) = elim later [
      | none ↦ some (pattern, route)
      | some (other, r) ↦
          if ltb (length pattern) (length other) then some (other, r) else some (pattern, route)
    ] in
    if matches pattern path then here else later

unfoldable pub route_of : Text → Option Route
route_of path = elim (longest path patterns) [ none ↦ none | some (pattern, route) ↦ some route ]
