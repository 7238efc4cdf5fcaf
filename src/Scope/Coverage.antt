-- ===== src/Scope/Coverage.antt =====
-- Coverage goes by path components.
use qiven_runtime.Base.{
  ℕ, ◌≡◌, refl, sym, ap, ◌↔◌, ◌⊎◌, inl, inr, arith, true, List, [], ◌∷◌, ◌++◌, map, Bytes, length,
  take, get_or, nat_beq, bytes_beq, bytes_beq_iff, bytes_beq_refl, take-append, length-append,
  Bool-cases,
}
use qiven_runtime.Scope.{slash, forward, path_contains, covers}

below :
    (root target : Bytes)
    → bytes_beq (take (length root) target) root ≡ true
    → nat_beq (get_or target (length root) 0) slash ≡ true
    → (rest : Bytes) × (target ≡ root ++ slash ∷ rest)
unfolding bytes_beq
below [] [] same at = absurd (ground (arith, at))
below [] (b ∷ target) same at = (target, ap (λ (x : ℕ). x ∷ target) (ground (arith, at)))
below (r ∷ root) [] same at = absurd (ground (arith, same))
below (r ∷ root) (b ∷ target) same at =
    let (rest, e) = below root target (ground (arith, same)) at in
    let head : b ≡ r = ground (arith, same) in (rest, cc (head, e))

slash_at : (root rest : Bytes) → get_or (root ++ slash ∷ rest) (length root) 0 ≡ slash
slash_at [] rest = refl
slash_at (r ∷ root) rest = slash_at root rest

-- A root contains exactly itself and the texts that continue it behind a slash.
pub path_contains_iff :
    (root target : Bytes)
    → (path_contains root target ≡ true)
      ↔ ((target ≡ root) ⊎ ((rest : Bytes) × (target ≡ root ++ slash ∷ rest)))
unfolding path_contains
path_contains_iff root target = (
  λ h. elim (Bool-cases (bytes_beq root target)) [
    | inl same ↦ inl (sym ((bytes_beq_iff root target).0 same))
    | inr other ↦ inr (below root target (ground (arith, h)) (ground (arith, h)))
  ],
  λ h. elim h [
    | inl e ↦ rw (e, bytes_beq_refl root) refl
    | inr (rest, e) ↦ rw e (
        ground (
          arith,
          take-append root (slash ∷ rest),
          bytes_beq_refl root,
          slash_at root rest,
          length-append root (slash ∷ rest),
        ))
  ],
)

map-append : (a b : Bytes) → map forward (a ++ b) ≡ map forward a ++ map forward b
map-append [] b = refl
map-append (x ∷ a) b = ap (◌∷◌ (forward x)) (map-append a b)

-- A target that steps out of a governed root by a parent component is covered all the same, whatever
-- follows.
pub covers_parent :
    (root rest : Bytes) (paths : List Bytes)
    → map forward root ≡ root
    → covers (root ∷ paths) (root ++ slash ∷ b'.' ∷ b'.' ∷ slash ∷ rest) ≡ true
unfolding covers
covers_parent root rest paths plain =
    let contained =
      (path_contains_iff root (root ++ slash ∷ b'.' ∷ b'.' ∷ slash ∷ map forward rest)).1
        (inr (b'.' ∷ b'.' ∷ slash ∷ map forward rest, refl)) in
    rw (map-append root (slash ∷ b'.' ∷ b'.' ∷ slash ∷ rest), plain, contained) refl
