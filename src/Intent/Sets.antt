-- ===== src/Intent/Sets.antt =====
-- What `make_intent_set` keeps.
use qiven_runtime.Base.{
  ◌≡◌, refl, ◌⊎◌, inl, inr, Bool, true, false, ◌||◌, List, [], ◌∷◌, ◌++◌, none, some, arith, any,
  All, Bool-cases, if◌then◌else◌,
}
use qiven_runtime.Intent.{
  IntentClassification, IntentSet, same_member, same_projection_refl, dedupe, make_intent_set,
}

-- Some member of the list is the same projection on the same basis.
abbrev pub represented : List IntentClassification → IntentClassification → Bool
represented kept m = any (λ k. same_member k m) kept

-- No member repeats an earlier one.
abbrev pub IsDistinct : List IntentClassification → Type 0
IsDistinct [] = Unit
IsDistinct (m ∷ rest) = All (λ k. same_member m k ≡ false) rest × IsDistinct rest

pub same_member_refl : (m : IntentClassification) → same_member m m ≡ true
unfolding same_member
same_member_refl m = ground (arith, same_projection_refl m.intent)

represented-append :
    (kept rest : List IntentClassification) (m : IntentClassification)
    → represented (kept ++ rest) m ≡ (represented kept m || represented rest m)
represented-append [] rest m = refl
represented-append (k ∷ kept) rest m = ground (arith, represented-append kept rest m)

All-snoc :
    (k : IntentClassification) (xs : List IntentClassification) (m : IntentClassification)
    → All (λ x. same_member k x ≡ false) xs
    → same_member k m ≡ false
    → All (λ x. same_member k x ≡ false) (xs ++ m ∷ [])
All-snoc k [] m h e = (e, tt)
All-snoc k (x ∷ xs) m h e = (h.0, All-snoc k xs m h.1 e)

IsDistinct-snoc :
    (kept : List IntentClassification) (m : IntentClassification)
    → IsDistinct kept
    → represented kept m ≡ false
    → IsDistinct (kept ++ m ∷ [])
IsDistinct-snoc [] m h e = (tt, tt)
IsDistinct-snoc (k ∷ kept) m h e =
    (All-snoc k kept m h.0 (ground arith), IsDistinct-snoc kept m h.1 (ground arith))

pub dedupe-IsDistinct :
    (kept ms : List IntentClassification) → IsDistinct kept → IsDistinct (dedupe kept ms)
unfolding dedupe
dedupe-IsDistinct kept [] h = h
dedupe-IsDistinct kept (m ∷ ms) h = elim (Bool-cases (represented kept m)) [
  | inl old ↦ rw old (dedupe-IsDistinct kept ms h)
  | inr new ↦ rw new (dedupe-IsDistinct (kept ++ m ∷ []) ms (IsDistinct-snoc kept m h new))
]

represented-dedupe :
    (kept ms : List IntentClassification) (m : IntentClassification)
    → represented kept m ≡ true
    → represented (dedupe kept ms) m ≡ true
unfolding dedupe
represented-dedupe kept [] m h = h
represented-dedupe kept (x ∷ ms) m h = elim (Bool-cases (represented kept x)) [
  | inl old ↦ rw old (represented-dedupe kept ms m h)
  | inr new ↦ rw new (
      represented-dedupe (kept ++ x ∷ []) ms m (ground (arith, represented-append kept (x ∷ []) m)))
]

-- What the loop keeps after one more member.
abbrev extend : List IntentClassification → IntentClassification → List IntentClassification
extend kept m = if represented kept m then kept else kept ++ m ∷ []

represented-extend :
    (kept : List IntentClassification) (m : IntentClassification)
    → represented (extend kept m) m ≡ true
represented-extend kept m = ground (arith, represented-append kept (m ∷ []) m, same_member_refl m)

pub dedupe-represented :
    (kept ms : List IntentClassification) → All (λ m. represented (dedupe kept ms) m ≡ true) ms
unfolding dedupe
dedupe-represented kept [] = tt
dedupe-represented kept (m ∷ ms) = (
  represented-dedupe (extend kept m) ms m (represented-extend kept m),
  dedupe-represented (extend kept m) ms,
)

-- A non-empty list of projections always makes a set; each of them is represented in it, and no
-- member of it repeats an earlier one. Only the empty list fails.
pub make_intent_set_lem :
    (ms : List IntentClassification)
    → ((ms ≡ []) × (make_intent_set ms ≡ none))
      ⊎ ((s : IntentSet) × (make_intent_set ms ≡ some s)
          × All (λ m. represented s.members m ≡ true) ms
          × IsDistinct s.members)
unfolding make_intent_set
make_intent_set_lem [] = inl (refl, refl)
make_intent_set_lem (m ∷ ms) = inr (
  record { members = dedupe [] (m ∷ ms) },
  refl,
  dedupe-represented [] (m ∷ ms),
  dedupe-IsDistinct [] (m ∷ ms) tt,
)
