-- ===== src/Scope/Building.antt =====
-- What the builder lets through.
use mathlib.Core.List.{Perm}
use qiven_runtime.Base.{
  ℕ, ◌≡◌, inl, inr, arith, true, List, [], ◌∷◌, none, some, Bytes, All, all, Option-cases,
  if◌then◌else◌, Bool-cases,
}
use qiven_runtime.Base.Sorts.{lex_le, sort, sorted_insert, sort-perm}
use qiven_runtime.Resolver.{is_empty}
use qiven_runtime.Scope.{
  slash, forward, without_end, trimmed, components, is_plain, normalize_path, normalize_all,
  built_scope, build_scope,
}

-- No component is empty, the directory itself or its parent.
abbrev pub IsNormal : Bytes → Type 0
IsNormal p = all is_plain (components p) ≡ true

normalize_path-IsNormal : (p q : Bytes) → normalize_path p ≡ some q → IsNormal q
unfolding normalize_path
normalize_path-IsNormal p q h = ground (arith, h)

normalize_all-IsNormal : (ps qs : List Bytes) → normalize_all ps ≡ some qs → All IsNormal qs
unfolding normalize_all
normalize_all-IsNormal [] [] h = tt
normalize_all-IsNormal [] (q ∷ qs) h = absurd (cc h)
normalize_all-IsNormal (p ∷ ps) qs h = elim (Option-cases (normalize_path p)) [
  | inl bad ↦ absurd (ground (arith, h, bad))
  | inr (q, good) ↦ elim (Option-cases (normalize_all ps)) [
    | inl bad ↦ absurd (ground (arith, h, good, bad))
    | inr (rest, fine) ↦
        let same : qs ≡ q ∷ rest = ground (arith, h, good, fine) in
        rw same (normalize_path-IsNormal p q good, normalize_all-IsNormal ps rest fine)
  ]
]

module _ (P : Bytes → Type 0) where
  All-sorted_insert :
      (x : Bytes) (ys : List Bytes) → P x → All P ys → All P (sorted_insert lex_le x ys)
  unfolding sorted_insert
  All-sorted_insert x [] px h = (px, tt)
  All-sorted_insert x (y ∷ ys) px h = elim (Bool-cases (lex_le x y)) [
    | inl before ↦ rw (before, if◌then◌else◌) (px, h)
    | inr after ↦ rw (after, if◌then◌else◌) (h.0, All-sorted_insert x ys px h.1)
  ]

  All-sort : (xs : List Bytes) → All P xs → All P (sort lex_le xs)
  unfolding sort
  All-sort [] h = tt
  All-sort (x ∷ xs) h = All-sorted_insert x (sort lex_le xs) h.0 (All-sort xs h.1)

-- A built scope holds, in some order, the normal forms of all the entries and nothing else, and no
-- path of it has an empty component, or one that is the directory itself or its parent.
pub build_scope_lem :
    (pending paths : List Bytes)
    → build_scope pending ≡ built_scope paths
    → (normal : List Bytes) × (normalize_all pending ≡ some normal)
      × Perm paths normal
      × All IsNormal paths
unfolding build_scope
build_scope_lem pending paths h = elim (Option-cases (normalize_all pending)) [
  | inl bad ↦ absurd (ground (arith, h, bad))
  | inr (normal, good) ↦
      let same : paths ≡ sort lex_le normal = ground (arith, h, good) in
      (
        normal,
        good,
        rw same (sort-perm lex_le normal),
        rw same (All-sort IsNormal normal (normalize_all-IsNormal pending normal good)),
      )
]

-- A path that begins with a slash, or with a backslash, never has a normal form.
pub normalize_path_absolute :
    (b : ℕ) (rest : Bytes) → forward b ≡ slash → normalize_path (b ∷ rest) ≡ none
unfolding normalize_path trimmed without_end components is_empty
normalize_path_absolute b rest h = ground (arith, h)
