-- ===== src/Resolver/Registry.antt =====
-- What a registry holds once `build` has accepted it.
use mathlib.Core.List.{Perm}
use qiven_runtime.Base.{
  ◌≡◌, refl, ap, ◌∙◌, inl, inr, Bool, false, List, [], ◌∷◌, none, some, arith, any, All, Bool-cases,
  if◌then◌else◌,
}
use qiven_runtime.Base.Sorts.{sorted_insert, sort, sort-perm}
use qiven_runtime.Foundation.{Foundation}
use qiven_runtime.Resolver.{
  ResolverKey, ResolverBinding, ResolverRegistry, same_key, same_key_iff, find, is_incomplete,
  first_error, binding_le, build, built,
}

-- No key stands twice.
abbrev pub IsUnambiguous : List ResolverBinding → Type 0
IsUnambiguous [] = Unit
IsUnambiguous (b ∷ rest) = All (λ o. same_key b.key o.key ≡ false) rest × IsUnambiguous rest

any-All :
    (p : ResolverBinding → Bool) (xs : List ResolverBinding)
    → any p xs ≡ false
    → All (λ o. p o ≡ false) xs
any-All p [] h = tt
any-All p (x ∷ xs) h = (ground arith, any-All p xs (ground arith))

first_error-none :
    (xs : List ResolverBinding)
    → first_error xs ≡ none
    → All (λ b. is_incomplete b ≡ false) xs × IsUnambiguous xs
unfolding first_error
first_error-none [] h = (tt, tt)
first_error-none (b ∷ xs) h =
    let rest = first_error-none xs (ground arith) in
    ((ground arith, rest.0), (any-All (λ o. same_key b.key o.key) xs (ground arith), rest.1))

All-sorted_insert :
    (le : ResolverBinding → ResolverBinding → Bool) (p : ResolverBinding → Bool)
    (b : ResolverBinding) (xs : List ResolverBinding)
    → p b ≡ false
    → All (λ o. p o ≡ false) xs
    → All (λ o. p o ≡ false) (sorted_insert le b xs)
unfolding sorted_insert
All-sorted_insert le p b [] e h = (e, tt)
All-sorted_insert le p b (x ∷ xs) e h = elim (Bool-cases (le b x)) [
  | inl first ↦ rw first (e, h)
  | inr later ↦ rw later (h.0, All-sorted_insert le p b xs e h.1)
]

All-sort :
    (le : ResolverBinding → ResolverBinding → Bool) (p : ResolverBinding → Bool)
    (xs : List ResolverBinding)
    → All (λ o. p o ≡ false) xs
    → All (λ o. p o ≡ false) (sort le xs)
unfolding sort
All-sort le p [] h = tt
All-sort le p (x ∷ xs) h = All-sorted_insert le p x (sort le xs) h.0 (All-sort le p xs h.1)

find-sorted_insert :
    (le : ResolverBinding → ResolverBinding → Bool) (b : ResolverBinding)
    (xs : List ResolverBinding) (key : ResolverKey)
    → All (λ o. same_key b.key o.key ≡ false) xs
    → find (sorted_insert le b xs) key ≡ find (b ∷ xs) key
unfolding sorted_insert find
find-sorted_insert le b [] key h = refl
find-sorted_insert le b (x ∷ xs) key h = ground (
  arith,
  find-sorted_insert le b xs key h.1,
  same_key_iff b.key key,
  same_key_iff x.key key,
  same_key_iff b.key x.key,
)

-- Sorting does not change what a lookup finds.
find-sort :
    (le : ResolverBinding → ResolverBinding → Bool) (xs : List ResolverBinding) (key : ResolverKey)
    → IsUnambiguous xs
    → find (sort le xs) key ≡ find xs key
unfolding sort find
find-sort le [] key h = refl
find-sort le (x ∷ xs) key h =
    find-sorted_insert le x (sort le xs) key (All-sort le (λ o. same_key x.key o.key) xs h.0)
    ∙ ap (λ t. if same_key x.key key then some x else t) (find-sort le xs key h.1)

find_later :
    (b : ResolverBinding) (xs ys : List ResolverBinding)
    → All (λ o. same_key b.key o.key ≡ false) xs
    → All (λ o. find ys o.key ≡ some o) xs
    → All (λ o. find (b ∷ ys) o.key ≡ some o) xs
unfolding find
find_later b [] ys h k = tt
find_later b (x ∷ xs) ys h k = (rw h.0 k.0, find_later b xs ys h.1 k.1)

find_own : (xs : List ResolverBinding) → IsUnambiguous xs → All (λ b. find xs b.key ≡ some b) xs
unfolding find
find_own [] h = tt
find_own (b ∷ xs) h =
    (rw ((same_key_iff b.key b.key).1 refl) refl, find_later b xs xs h.0 (find_own xs h.1))

All-find-sort :
    (le : ResolverBinding → ResolverBinding → Bool) (xs ys : List ResolverBinding)
    → IsUnambiguous ys
    → All (λ b. find ys b.key ≡ some b) xs
    → All (λ b. find (sort le ys) b.key ≡ some b) xs
All-find-sort le [] ys u h = tt
All-find-sort le (x ∷ xs) ys u h = (find-sort le ys x.key u ∙ h.0, All-find-sort le xs ys u h.1)

built_parts :
    (f : Foundation) (entries : List ResolverBinding) (r : ResolverRegistry)
    → build f entries ≡ built r
    → (first_error entries ≡ none) × (r.bindings ≡ sort (binding_le f) entries)
unfolding build
built_parts f entries r h = ground arith

-- If `build` accepts the entries, each of them has a name, a version and a view, no two have one
-- key, the registry holds exactly the entries in some order, and looking up the key of an entry
-- finds that entry.
pub build_lem :
    (f : Foundation) (entries : List ResolverBinding) (r : ResolverRegistry)
    → build f entries ≡ built r
    → All (λ b. is_incomplete b ≡ false) entries
      × IsUnambiguous entries
      × Perm r.bindings entries
      × All (λ b. find r.bindings b.key ≡ some b) entries
build_lem f entries r h =
    let parts = built_parts f entries r h in
    let sound = first_error-none entries parts.0 in
    (
      sound.0,
      sound.1,
      rw parts.1 (sort-perm (binding_le f) entries),
      rw parts.1 (All-find-sort (binding_le f) entries entries sound.1 (find_own entries sound.1)),
    )
