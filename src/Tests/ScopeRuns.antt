-- ===== src/Tests/ScopeRuns.antt =====
-- Runs of the resource scope.

use qiven_runtime.Base.{◌≡◌, refl, ◌↔◌, ◌⊎◌, true, List, [], ◌∷◌, ◌++◌, Bytes, bytes_beq}
use qiven_runtime.Base.Sorts.{lex_le, sort, sorted_insert}
use qiven_runtime.Base.Text.{codes}
use qiven_runtime.Resolver.{is_empty}
use qiven_runtime.Scope.{
  slash, without_end, trimmed, components, normalize_path, normalize_all, has_neighbour_twice,
  path_contains, built_scope, build_scope, covers,
}
use qiven_runtime.Scope.Coverage.{path_contains_iff, covers_parent}

path_contains_iff_example : (path_contains (codes "state") (codes "state/a") ≡ true) ↔ (
    (codes "state/a" ≡ codes "state")
    ⊎ ((rest : Bytes) × (codes "state/a" ≡ codes "state" ++ slash ∷ rest)))
path_contains_iff_example = path_contains_iff (codes "state") (codes "state/a")

covers_parent_example :
    covers (codes "state" ∷ []) (codes "state" ++ slash ∷ b'.' ∷ b'.' ∷ slash ∷ codes "etc") ≡ true
covers_parent_example = covers_parent (codes "state") (codes "etc") [] refl

abbrev entries : List Bytes
entries = codes "state/" ∷ codes "docs\\x" ∷ []

builds : build_scope entries ≡ built_scope (codes "docs/x" ∷ codes "state" ∷ [])
unfolding build_scope normalize_all normalize_path trimmed without_end components is_empty bytes_beq
    has_neighbour_twice sort sorted_insert lex_le
builds = refl
