-- ===== src/Intent/Floor.antt =====
-- The classification never narrows what the surface establishes (intent.hpp).
use qiven_runtime.Base.{
  ◌≡◌, refl, ◌≢◌, Bool, true, false, List, [], ◌∷◌, ◌++◌, map, some, All, if◌then◌else◌, arith, ap,
  subst, Bool-cases, inl, inr,
}
use qiven_runtime.Context.{Context, ActionIntent}
use qiven_runtime.Intent.{
  ObservedAction, StructuralFacts, IntentClassification, IntentSet, make_intent_set, rule_members,
  begin_task_intent, with_floor, classify, dedupe, mechanical, structural, declared, process_launch,
  is_process_launch, OperationClass, claim_intent, mutation_intent, launch_intent,
}
use qiven_runtime.Intent.Sets.{represented, IsDistinct, dedupe-represented, dedupe-IsDistinct}

represented-nonempty :
    (xs : List IntentClassification) (m : IntentClassification) → represented xs m ≡ true → xs ≢ []
represented-nonempty [] m h e = cc h
represented-nonempty (x ∷ xs) m h e = cc e

-- A set that holds `ms`, with no repetition and not empty.
abbrev pub Holds : List IntentClassification → IntentSet → Type 0
Holds ms s = All (λ m. represented s.members m ≡ true) ms × IsDistinct s.members × (s.members ≢ [])

floor_Holds :
    (c : Context) (ms : List IntentClassification)
    → (s : IntentSet) × (make_intent_set (with_floor c ms) ≡ some s) × Holds (with_floor c ms) s
unfolding make_intent_set
floor_Holds c [] =
    let held = dedupe-represented [] (begin_task_intent c ∷ []) in
    (
      record { members = dedupe [] (begin_task_intent c ∷ []) },
      refl,
      (
        held,
        dedupe-IsDistinct [] (begin_task_intent c ∷ []) tt,
        represented-nonempty _ (begin_task_intent c) held.0,
      ),
    )
floor_Holds c (m ∷ ms) =
    let held = dedupe-represented [] (m ∷ ms) in
    (
      record { members = dedupe [] (m ∷ ms) },
      refl,
      (held, dedupe-IsDistinct [] (m ∷ ms) tt, represented-nonempty _ m held.0),
    )

All-with_floor :
    (c : Context) (P : IntentClassification → Type 0) (ms : List IntentClassification)
    → All P (with_floor c ms)
    → All P ms
All-with_floor c P [] h = tt
All-with_floor c P (m ∷ ms) h = h

All-append_right :
    (P : IntentClassification → Type 0) (xs ys : List IntentClassification)
    → All P (xs ++ ys)
    → All P ys
All-append_right P [] ys h = h
All-append_right P (x ∷ xs) ys h = All-append_right P xs ys h.1

All-append_left :
    (P : IntentClassification → Type 0) (xs ys : List IntentClassification)
    → All P (xs ++ ys)
    → All P xs
All-append_left P [] ys h = tt
All-append_left P (x ∷ xs) ys h = (h.0, All-append_left P xs ys h.1)

All-given :
    (P : IntentClassification → Type 0) (given : Bool) (m : IntentClassification)
    → All P (if given then m ∷ [] else [])
    → given ≡ true
    → P m
All-given P true m h e = h.0
All-given P false m h e = absurd (cc e)

All-declared :
    (P : IntentClassification → Type 0) (stated : List ActionIntent)
    → All P (map (λ i. record { intent = i; basis = declared }) stated)
    → All (λ i. P (record { intent = i; basis = declared })) stated
All-declared P [] h = tt
All-declared P (i ∷ stated) h = (h.0, All-declared P stated h.1)

not_launch : (o : OperationClass) → o ≢ process_launch → is_process_launch o ≡ false
not_launch o h = elim (Bool-cases (is_process_launch o)) [
  | inl launches ↦ absurd (h (launch_inv o launches))
  | inr other ↦ other
]
  where
    launch_inv : (o : OperationClass) → is_process_launch o ≡ true → o ≡ process_launch
    launch_inv o e = ground arith

-- What a classification of the action represents: the claim of a capability that can publish claims,
-- the mutation of one that can mutate the world, the launch of one that launches processes, and
-- every declared intent; the beginning of a task where there is none of these.
pub record Represents (c : Context) (action : ObservedAction) (facts : StructuralFacts)
    (stated : List ActionIntent) (s : IntentSet) : Type 0 where
  pub claim :
      facts.capability.can_publish_claims ≡ true
      → represented s.members (record {
        intent = record c.default_intent {
          kind = c.make_canonical_claim;
          claim_class = c.canonical_fact;
          tool = action.operation;
        };
        basis = mechanical;
      })
        ≡ true
  pub contract_mutation :
      facts.capability.can_mutate_world ≡ true
      → facts.target_is_public_contract ≡ true
      → represented s.members (record {
        intent = record c.default_intent {
          kind = c.modify_public_api;
          tool = action.operation;
          files = c.default_intent.files ++ action.target ∷ [];
        };
        basis = structural;
      })
        ≡ true
  pub mutation :
      facts.capability.can_mutate_world ≡ true
      → facts.target_is_public_contract ≡ false
      → represented s.members (record {
        intent = record c.default_intent {
          kind = c.modify_referenced_contract;
          tool = action.operation;
          files = c.default_intent.files ++ action.target ∷ [];
        };
        basis = structural;
      })
        ≡ true
  pub launch :
      facts.capability.operation_class ≡ process_launch
      → represented s.members (record {
        intent = record c.default_intent {
          kind = c.invoke_tool;
          claim_class = c.local_recall;
          tool = action.operation;
        };
        basis = mechanical;
      })
        ≡ true
  pub declarations :
      All (λ i. represented s.members (record { intent = i; basis = declared }) ≡ true) stated
  pub floor :
      facts.capability.can_publish_claims ≡ false
      → facts.capability.can_mutate_world ≡ false
      → facts.capability.operation_class ≢ process_launch
      → stated ≡ []
      → represented s.members
          (record { intent = record c.default_intent { kind = c.begin_task }; basis = mechanical })
        ≡ true

-- Classification always succeeds, on every action, fact and declaration. The set is not empty, no
-- member repeats an earlier one, and it represents the claim of a capability that can publish claims,
-- the mutation of one that can mutate the world (of a public contract or of another target), the
-- launch of one that launches processes, every declared intent, and the beginning of a task where
-- there is none of these.
pub classify_lem :
    (c : Context) (action : ObservedAction) (facts : StructuralFacts) (stated : List ActionIntent)
    → (s : IntentSet) × (classify c action facts stated ≡ some s)
      × Represents c action facts stated s
      × IsDistinct s.members
      × (s.members ≢ [])
unfolding classify rule_members
classify_lem c action facts stated =
    let (s, made, (held, distinct, nonempty)) =
      floor_Holds c (rule_members c action facts stated) in
    (s, made, represents s held, distinct, nonempty)
  where
    no_rules :
        facts.capability.can_publish_claims ≡ false
        → facts.capability.can_mutate_world ≡ false
        → is_process_launch facts.capability.operation_class ≡ false
        → stated ≡ []
        → rule_members c action facts stated ≡ []
    no_rules h1 h2 h3 h4 = rw (h1, h2, h3, h4) refl

    represents :
        (s : IntentSet)
        → All
            (λ m. represented s.members m ≡ true)
            (with_floor c (rule_members c action facts stated))
        → Represents c action facts stated s
    represents s held =
        let P : IntentClassification → Type 0 = λ m. represented s.members m ≡ true in
        let a = if facts.capability.can_publish_claims then claim_intent c action ∷ [] else [] in
        let b =
          if facts.capability.can_mutate_world then mutation_intent c action facts ∷ [] else [] in
        let d =
          if is_process_launch facts.capability.operation_class
          then launch_intent c action ∷ []
          else [] in
        let e : List IntentClassification =
          map (λ i. record { intent = i; basis = declared }) stated in
        let all_ = All-with_floor c P (rule_members c action facts stated) held in
        let abd = All-append_left P (a ++ b ++ d) e all_ in
        let ab = All-append_left P (a ++ b) d abd in
        let mutates =
          All-given P facts.capability.can_mutate_world (mutation_intent c action facts)
            (All-append_right P a b ab) in
        record {
          claim =
              All-given P facts.capability.can_publish_claims (claim_intent c action)
                (All-append_left P a b ab);
          contract_mutation = λ h public. rw public at (mutates h);
          mutation = λ h other. rw other at (mutates h);
          launch = λ h.
              All-given P (is_process_launch facts.capability.operation_class)
                (launch_intent c action) (All-append_right P (a ++ b) d abd)
                (ap is_process_launch h);
          declarations = All-declared P stated (All-append_right P (a ++ b ++ d) e all_);
          floor = λ no_claim no_mutation no_launch none_stated.
              let bare : rule_members c action facts stated ≡ [] =
                no_rules no_claim no_mutation (not_launch _ no_launch) none_stated in
              (subst (λ ms. All P (with_floor c ms)) bare held).0;
        }
