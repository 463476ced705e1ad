-- ===== src/Jail/Containers/Routes.antt =====
-- The routes that bypass the tunnel, as a list.
use netcage.Base.{Bool, false, ◌||◌, List, [], ◌∷◌, ◌++◌, ◌≡◌, if◌then◌else◌}
use netcage.Text.{Text, eqb, member}
use netcage.Cli.Allow.{DirectAllow}
use netcage.Jail.Containers.{route_of}

-- Some entry of the allowlist has the route.
pub has_route : Text → List DirectAllow → Bool
has_route r [] = false
has_route r (a ∷ allows) = eqb (route_of a) r || has_route r allows

extended : List Text → Text → List Text
extended routes r = if member r routes then routes else routes ++ (r ∷ [])

-- No text stands twice in the list.
pub Distinct : List Text → Type 0
Distinct [] = Unit
Distinct (t ∷ ts) = (member t ts ≡ false) × Distinct ts
