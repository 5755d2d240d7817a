-- ===== src/Tests/Routes.antt =====
-- A multiplexer that compares texts, which meets the laws that are assumed of net/http's.
use nodefall.Base.{
  String, ◌==◌, eq_iff, eq_refl, ◌||◌, ◌≡◌, ◌≢◌, sym, ap, ◌∙◌, none, some, arith, if◌then◌else◌,
}
use Prim.Native.String.{len, slice, ◌++◌ as ◌<>◌}
use text.Mathlib.TextPositions.{len-append, slice-append_left}
use nodefall.Http.{http_error, status_not_found}
use nodefall.Http.Mux.{Mux, IsMux}

abbrev pub literal : Mux
literal = record {
  matches = λ pattern t.
      if pattern == t.method <> " " <> t.path || pattern == t.path then some "" else none;
  unrouted = λ patterns t. http_error "404 page not found" status_not_found;
}

append_inj : (a b s : String) → a <> s ≡ b <> s → a ≡ b
append_inj a b s e =
    let same : len a ≡ len b = omega (arith, sym (len-append a s) ∙ ap len e ∙ len-append b s) in
    sym (slice-append_left a s)
    ∙ ap (λ t. slice t 0 (len a)) e
    ∙ ap (λ n. slice (b <> s) 0 n) same
    ∙ slice-append_left b s

longer : (method path : String) → method <> " " <> path ≢ path
longer method path same =
    let by_len = sym (len-append method (" " <> path)) ∙ ap len same in
    let by_blank = len-append " " path in omega (arith, by_len, by_blank)

pub literal-IsMux : (path : String) → IsMux literal path
literal-IsMux path = record {
  matches_any = λ method. ground (arith, eq_refl path);
  matches_own = λ method. ground (arith, eq_refl (method <> " " <> path));
  matches_other = λ method asked ne no_head. ground (
    arith,
    eq_iff (method <> " " <> path) (asked <> " " <> path),
    eq_iff (method <> " " <> path) path,
    eq_iff method asked,
    append_inj method asked (" " <> path),
    longer method path,
  );
}
