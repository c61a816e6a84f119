-- ===== src/Api/Routes/Tests.antt =====
-- Where some paths go.
use grepod.Prelude.{◌≡◌, refl, some, codes}
use grepod.Api.Routes.{route_of, search_route, static_route, index_route, healthz_route}

paths_routed :
    (route_of (codes "/api/search") ≡ some search_route)
    × (route_of (codes "/api/searches") ≡ some index_route)
    × (route_of (codes "/static/app.js") ≡ some static_route)
    × (route_of (codes "/healthz") ≡ some healthz_route)
    × (route_of (codes "/") ≡ some index_route)
unfolding route_of
paths_routed = (refl, refl, refl, refl, refl)
