-- ===== src/Scope.antt =====
-- scope.hpp and scope.cpp: the explicit enumeration of governed paths. A ResourceScope is its sorted
-- list of paths.
pub mod Coverage
pub mod Building
use qiven_runtime.Base.{
  ℕ, Bool, true, false, not, ◌&&◌, ◌||◌, List, [], ◌∷◌, map, Option, none, some, Bytes, length,
  take, get_or, any, all, leb, nat_beq, bytes_beq, if◌then◌else◌,
}
use qiven_runtime.Base.Sorts.{lex_le, sort}
use qiven_runtime.Base.Text.{codes}
use qiven_runtime.Foundation.{Foundation}
use qiven_runtime.Preimage.{put_texts, digest_of}
use qiven_runtime.Resolver.{is_empty}

abbrev pub slash : ℕ
slash = b'/'

-- Backslashes become slashes.
abbrev pub forward : ℕ → ℕ
forward b = if nat_beq b 92 then slash else b

abbrev pub has_glob : Bytes → Bool
has_glob path = any (λ b. nat_beq b b'*' || nat_beq b b'?') path

-- The path without the slashes at its end.
unfoldable pub without_end : Bytes → Bytes
without_end [] = []
without_end (b ∷ rest) =
    let kept = without_end rest in if is_empty kept && nat_beq b slash then [] else b ∷ kept

-- The loop that removes them keeps one byte.
unfoldable pub trimmed : Bytes → Bytes
trimmed path =
    if is_empty (without_end path) && not (is_empty path) then slash ∷ [] else without_end path

abbrev pub in_front : ℕ → List Bytes → List Bytes
in_front b [] = (b ∷ []) ∷ []
in_front b (c ∷ rest) = (b ∷ c) ∷ rest

-- What stands between the slashes.
unfoldable pub components : Bytes → List Bytes
components [] = [] ∷ []
components (b ∷ rest) =
    let others = components rest in if nat_beq b slash then [] ∷ others else in_front b others

abbrev pub is_plain : Bytes → Bool
is_plain c = not (is_empty c) && not (bytes_beq c (codes ".")) && not (bytes_beq c (codes ".."))

unfoldable pub normalize_path : Bytes → Option Bytes
normalize_path path =
    let converted = map forward path in
    let short = trimmed converted in
    if is_empty path
    then none
    else if has_glob converted
    then none
    else if all is_plain (components short)
    then some short
    else none

unfoldable pub path_contains : Bytes → Bytes → Bool
path_contains root target =
    bytes_beq root target
    || (not (leb (length target) (length root))
        && bytes_beq (take (length root) target) root
        && nat_beq (get_or target (length root) 0) slash)

-- The two failures of `build`, with their codes 40 and 41.
pub data ScopeError : Type 0 where
  ambiguous_entry duplicate_entry : ScopeError

pub data ScopeResult : Type 0 where
  built_scope : List Bytes → ScopeResult
  refused_scope : ScopeError → ScopeResult

-- The first loop of `build`.
unfoldable pub normalize_all : List Bytes → Option (List Bytes)
normalize_all [] = some []
normalize_all (p ∷ rest) = elim (normalize_path p) [
  | none ↦ none
  | some q ↦ elim (normalize_all rest) [ none ↦ none | some qs ↦ some (q ∷ qs) ]
]

unfoldable pub has_neighbour_twice : List Bytes → Bool
has_neighbour_twice (p ∷ q ∷ rest) = bytes_beq q p || has_neighbour_twice (q ∷ rest)
has_neighbour_twice _ = false

unfoldable pub build_scope : List Bytes → ScopeResult
build_scope pending = elim (normalize_all pending) [
  | none ↦ refused_scope ambiguous_entry
  | some paths ↦
      if has_neighbour_twice (sort lex_le paths)
      then refused_scope duplicate_entry
      else built_scope (sort lex_le paths)
]

-- `ScopeCoverage::Covered` is true.
unfoldable pub covers : List Bytes → Bytes → Bool
covers paths target = any (λ p. path_contains p (map forward target)) paths

unfoldable pub scope_digest : Foundation → List Bytes → Bytes
scope_digest f paths =
    digest_of f (put_texts f (f.append_le_u64 f.new_builder (length paths)) paths)
