-- ===== src/Http/Cors.antt =====
-- shared/middleware/cors.go.
use nodefall.Base.{String, ◌==◌, List, [], ◌∷◌, if◌then◌else◌}
use nodefall.Http.{Answer, http_error, status_no_content}

abbrev pub method_options : String
method_options = "OPTIONS"

-- The headers that `WithCORS` sets on every answer.
abbrev pub cors_headers : List (String × String)
cors_headers =
    ("Access-Control-Allow-Origin", "*")
    ∷ ("Access-Control-Allow-Methods", "GET, POST, DELETE, OPTIONS")
    ∷ ("Access-Control-Allow-Headers", "Content-Type, Authorization")
    ∷ []

-- `preflight` answers without the wrapped handler `next`. The headers come with whatever is answered.
unfoldable pub with_cors {ℓ} : {A : Type ℓ} → String → (Answer → A) → A → List (String × String) × A
with_cors method preflight next = (
  cors_headers,
  if method == method_options then preflight (http_error "" status_no_content) else next,
)
