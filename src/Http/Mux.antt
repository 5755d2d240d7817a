-- ===== src/Http/Mux.antt =====
-- What `http.ServeMux` contributes to the services' main functions.
use nodefall.Base.{
  String, ◌==◌, Bool, true, false, is_some, ◌&&◌, ◌||◌, arith, ◌≡◌, List, [], ◌∷◌, Option, none,
  some, map, refl, All,
}
use Prim.Native.String.{◌++◌ as ◌<>◌}
use nodefall.Http.{Answer}

-- A request: what `WithAuth` reads of it is not here but in `Auth.Guard.Request`.
pub record Target : Type 0 where
  pub method : String
  pub path : String

-- Whether a pattern matches a request, with the value of its wildcard (empty if it has none), and the
-- answer to a request that no pattern matches.
pub record Mux : Type 0 where
  pub matches : String → Target → Option String
  pub unrouted : List String → Target → Answer

-- A pattern of a method and this path matches that path under that method, and no other method, but
-- that GET matches HEAD too; a pattern of the path alone matches under every method.
pub record IsMux (mux : Mux) (path : String) : Type 0 where
  pub matches_any :
      (method : String) → mux.matches path (record { method = method; path = path }) ≡ some ""
  pub matches_own :
      (method : String)
      → mux.matches (method <> " " <> path) (record { method = method; path = path }) ≡ some ""
  pub matches_other :
      (method asked : String)
      → (method == asked) ≡ false
      → (method == "GET" && asked == "HEAD") ≡ false
      → mux.matches (method <> " " <> path) (record { method = asked; path = path }) ≡ none

-- Whether one of the patterns matches.
unfoldable pub is_routed : Mux → Target → List String → Bool
is_routed mux target [] = false
is_routed mux target (pattern ∷ patterns) =
    let later = is_routed mux target patterns in is_some (mux.matches pattern target) || later

module _ {ℓ} {A : Type ℓ} (mux : Mux) (target : Target) where
  -- The handler of the pattern that matches. No two patterns of a service match one request, so their
  -- order does not count.
  unfoldable pub first_match : A → List (String × (String → A)) → A
  first_match otherwise [] = otherwise
  first_match otherwise ((pattern, handler) ∷ routes) =
      let later = first_match otherwise routes in
      elim (mux.matches pattern target) [ none ↦ later | some value ↦ handler value ]

  unfoldable pub dispatch : (Answer → A) → List (String × (String → A)) → A
  dispatch refuse routes = first_match (refuse (mux.unrouted (map (λ x. x.0) routes) target)) routes

  -- What holds of every handler and of the answer to a request without a route holds.
  pub first_match-All {κ} :
      (P : A → Type κ) (otherwise : A) (routes : List (String × (String → A)))
      → P otherwise
      → All (λ x. (value : String) → P (x.1 value)) routes
      → P (first_match otherwise routes)
  unfolding first_match
  first_match-All P otherwise [] default each = default
  first_match-All P otherwise ((pattern, handler) ∷ routes) default (here, each) =
      go (mux.matches pattern target) (first_match-All P otherwise routes default each)
    where
      go :
          (o : Option String)
          → P (first_match otherwise routes)
          → P (elim o [ none ↦ first_match otherwise routes | some value ↦ handler value ])
      go none later = later
      go (some value) later = here value

  -- A pattern that no earlier one hides.
  pub first_match_here :
      (otherwise : A) (pattern value : String) (handler : String → A)
      (routes : List (String × (String → A)))
      → mux.matches pattern target ≡ some value
      → first_match otherwise ((pattern, handler) ∷ routes) ≡ handler value
  unfolding first_match
  first_match_here otherwise pattern value handler routes hit = rw (hit, first_match) refl

  pub first_match_later :
      (otherwise : A) (pattern : String) (handler : String → A)
      (routes : List (String × (String → A)))
      → mux.matches pattern target ≡ none
      → first_match otherwise ((pattern, handler) ∷ routes) ≡ first_match otherwise routes
  unfolding first_match
  first_match_later otherwise pattern handler routes miss = rw (miss, first_match) refl

  -- What holds of every handler holds of the one that is found.
  pub first_match-routed {κ} :
      (P : A → Type κ) (otherwise : A) (routes : List (String × (String → A)))
      → All (λ x. (value : String) → P (x.1 value)) routes
      → is_routed mux target (map (λ x. x.0) routes) ≡ true
      → P (first_match otherwise routes)
  unfolding first_match is_routed
  first_match-routed P otherwise [] each routed = absurd (ground arith)
  first_match-routed P otherwise ((pattern, handler) ∷ routes) (here, each) routed =
      go (mux.matches pattern target) (first_match-routed P otherwise routes each) routed
    where
      go :
          (o : Option String)
          → (is_routed mux target (map (λ x. x.0) routes) ≡ true → P (first_match otherwise routes))
          → is_some o || is_routed mux target (map (λ x. x.0) routes) ≡ true
          → P (elim o [ none ↦ first_match otherwise routes | some value ↦ handler value ])
      go none later routed = later routed
      go (some value) later routed = here value
