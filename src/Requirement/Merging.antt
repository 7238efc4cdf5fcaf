-- ===== src/Requirement/Merging.antt =====
-- Merging keeps one instance for each identity, and remembers every intent that asked for it.
use qiven_runtime.Base.{
  ℕ, ◌≡◌, inl, inr, Bool, true, false, ◌||◌, List, [], ◌∷◌, ◌++◌, none, some, arith, All, nat_beq,
  nat_beq_iff, nat_eq, contains, Bool-cases,
}
use qiven_runtime.Requirement.{
  RequirementIdentity, RequirementInstance, identity_beq, identity_beq_iff, identity_eq, find,
  add_origins, merge,
}

-- No identity stands twice.
abbrev pub IsUnique : List RequirementInstance → Type 0
IsUnique [] = Unit
IsUnique (i ∷ rest) = All (λ j. identity_beq i.identity j.identity ≡ false) rest × IsUnique rest

-- The instance of the identity is there, and names the intent among its origins.
abbrev pub has_origin : RequirementIdentity → ℕ → List RequirementInstance → Bool
has_origin k index acc = elim (find k acc) [
  | none ↦ false
  | some r ↦ contains index r.origin_intents
]

contains-append :
    (o a : ℕ) (xs : List ℕ) → contains a (xs ++ o ∷ []) ≡ (contains a xs || nat_beq o a)
unfolding contains
contains-append o a [] = ground arith
contains-append o a (x ∷ xs) = ground (arith, contains-append o a xs)

add_origins_old :
    (known new : List ℕ) (a : ℕ)
    → contains a known ≡ true
    → contains a (add_origins known new) ≡ true
unfolding add_origins
add_origins_old known [] a h = h
add_origins_old known (o ∷ rest) a h = elim (Bool-cases (contains o known)) [
  | inl there ↦ rw there (add_origins_old known rest a h)
  | inr new ↦
      rw new (add_origins_old (known ++ o ∷ []) rest a (ground (arith, contains-append o a known)))
]

add_origins_new : (known : List ℕ) (o : ℕ) → contains o (add_origins known (o ∷ [])) ≡ true
unfolding add_origins
add_origins_new known o = elim (Bool-cases (contains o known)) [
  | inl there ↦ rw there there
  | inr new ↦ rw new (ground (arith, contains-append o o known))
]

module _ (new : RequirementInstance) where
  All-merge :
      (k : RequirementIdentity) (acc : List RequirementInstance)
      → identity_beq k new.identity ≡ false
      → All (λ j. identity_beq k j.identity ≡ false) acc
      → All (λ j. identity_beq k j.identity ≡ false) (merge new acc)
  unfolding merge
  All-merge k [] e h = (e, tt)
  All-merge k (i ∷ acc) e h = elim (Bool-cases (identity_beq i.identity new.identity)) [
    | inl same ↦ rw same h
    | inr other ↦ rw other (h.0, All-merge k acc e h.1)
  ]

  pub merge-IsUnique : (acc : List RequirementInstance) → IsUnique acc → IsUnique (merge new acc)
  unfolding merge
  merge-IsUnique [] h = (tt, tt)
  merge-IsUnique (i ∷ acc) h = elim (Bool-cases (identity_beq i.identity new.identity)) [
    | inl same ↦ rw same h
    | inr other ↦ rw other (All-merge i.identity acc other h.0, merge-IsUnique acc h.1)
  ]

  pub has_origin-merge_old :
      (k : RequirementIdentity) (index : ℕ) (acc : List RequirementInstance)
      → has_origin k index acc ≡ true
      → has_origin k index (merge new acc) ≡ true
  unfolding merge find
  has_origin-merge_old k index [] h = cc h
  has_origin-merge_old k index (i ∷ acc) h = ground (
    arith,
    add_origins_old i.origin_intents new.origin_intents index,
    has_origin-merge_old k index acc,
  )

pub has_origin-merge_new :
    (new : RequirementInstance) (index : ℕ) (acc : List RequirementInstance)
    → new.origin_intents ≡ index ∷ []
    → has_origin new.identity index (merge new acc) ≡ true
unfolding merge find contains
has_origin-merge_new new index [] e =
    ground (arith, identity_beq_iff new.identity new.identity, nat_beq_iff index index)
has_origin-merge_new new index (i ∷ acc) e = ground (
  arith,
  identity_beq_iff i.identity new.identity,
  add_origins_new i.origin_intents index,
  has_origin-merge_new new index acc,
)
