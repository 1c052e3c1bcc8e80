-- ===== src/ReviewPolicy/Sets.antt =====
-- city/review_governance/policy.py: what the sorted sets of paths keep of the lists they are made of.
use mathlib.Core.Path.{subst}
use agent_city.Prelude.{
  ◌≡◌, refl, ◌∙◌, inl, inr, String, Bool, true, false, Option, none, some, List, [], ◌∷◌, arith,
  Bool-cases, Option-cases, All, All-map, eq_iff, if_either,
}
use agent_city.Prelude.Key.{◌==◌, text_key, ==-refl}
use agent_city.Prelude.Texts.{text_le}
use agent_city.Prelude.Sort.{place, order_by, All-order_by}
use agent_city.ReviewPolicy.Scope.{Entry, is_member}
use agent_city.ReviewPolicy.{core_of, all_paths, sorted_set, distinct, is_subset, is_empty}

-- What sorting a list, or making it a set, leaves as it is.
is_member-place :
    (p x : String) (ys : List String) → is_member p (place text_le x ys) ≡ is_member p (x ∷ ys)
unfolding is_member place
is_member-place p x [] = refl
is_member-place p x (y ∷ ys) = ground (arith, is_member-place p x ys)

is_member-order_by :
    (p : String) (ys : List String) → is_member p (order_by text_le ys) ≡ is_member p ys
unfolding is_member order_by
is_member-order_by p [] = refl
is_member-order_by p (y ∷ ys) =
    ground (arith, is_member-place p y (order_by text_le ys), is_member-order_by p ys)

is_member-distinct : (p : String) (ys : List String) → is_member p (distinct ys) ≡ is_member p ys
unfolding is_member distinct
is_member-distinct p [] = refl
is_member-distinct p (y ∷ ys) = elim (Bool-cases (y == p)) [
  | inl same ↦
      subst (λ z. is_member z (distinct (y ∷ ys)) ≡ is_member z (y ∷ ys)) ((eq_iff y p).0 same)
        (ground (arith, is_member-distinct y ys, ==-refl y))
  | inr other ↦ ground (arith, is_member-distinct p ys, other)
]

is_member-sorted_set :
    (p : String) (ys : List String) → is_member p (sorted_set ys) ≡ is_member p ys
unfolding sorted_set
is_member-sorted_set p ys = is_member-order_by p (distinct ys) ∙ is_member-distinct p ys

is_empty-place :
    {A : Type 0} (before : A → A → Bool) (x : A) (ys : List A)
    → is_empty (place before x ys) ≡ false
unfolding place
is_empty-place before x [] = refl
is_empty-place before x (y ∷ ys) = ground arith

pub is_empty-order_by :
    {A : Type 0} (before : A → A → Bool) (ys : List A) → is_empty (order_by before ys) ≡ is_empty ys
unfolding order_by
is_empty-order_by before [] = refl
is_empty-order_by before (y ∷ ys) = is_empty-place before y (order_by before ys)

is_empty-distinct : (ys : List String) → is_empty (distinct ys) ≡ is_empty ys
unfolding distinct is_member
is_empty-distinct [] = refl
is_empty-distinct (y ∷ ys) = elim (Option-cases (first (distinct ys))) [
  | inl none_left ↦ ground (arith, none_left)
  | inr (z, e) ↦ ground (arith, e)
]
  where
    first : List String → Option String
    first [] = none
    first (z ∷ zs) = some z

pub is_empty-sorted_set : (ys : List String) → is_empty (sorted_set ys) ≡ is_empty ys
unfolding sorted_set
is_empty-sorted_set ys = is_empty-order_by text_le (distinct ys) ∙ is_empty-distinct ys

All-distinct : (P : String → Type 0) (xs : List String) → All P xs → All P (distinct xs)
unfolding distinct
All-distinct P [] h = tt
All-distinct P (x ∷ xs) h = elim (Bool-cases (is_member x (distinct xs))) [
  | inl old ↦ rw old (All-distinct P xs h.1)
  | inr new ↦ rw new (h.0, All-distinct P xs h.1)
]

All→is_subset : (xs ys : List String) → All (λ x. is_member x ys ≡ true) xs → is_subset xs ys ≡ true
unfolding is_subset
All→is_subset [] ys h = refl
All→is_subset (x ∷ xs) ys h = ground (arith, h.0, All→is_subset xs ys h.1)

All-is_member : (xs : List String) → All (λ x. is_member x xs ≡ true) xs
unfolding is_member
All-is_member [] = tt
All-is_member (x ∷ xs) = (
  ground (arith, ==-refl x),
  All-map (λ z. is_member z (x ∷ xs) ≡ true) xs (λ z q. ground (arith, q)) (All-is_member xs),
)

abbrev AllSome : (String → Type 0) → Option (List String) → Type 0
AllSome P none = Unit
AllSome P (some cs) = All P cs

AllSome-core_of :
    (P : String → Type 0) (classify : String → String) (ps : List String)
    → All P ps
    → AllSome P (core_of classify ps)
unfolding core_of
AllSome-core_of P classify [] h = tt
AllSome-core_of P classify (p ∷ ps) h =
    let rest = AllSome-core_of P classify ps h.1 in
    if_either (AllSome P) (p == "") rest (
      if_either (AllSome P) (classify p == "core") (with_core (core_of classify ps) rest)
        (if_either (AllSome P) (classify p == "non_core") rest tt))
  where
    with_core :
        (o : Option (List String))
        → AllSome P o
        → AllSome P (elim o [ none ↦ none | some cs ↦ some (p ∷ cs) ])
    with_core none q = tt
    with_core (some cs) q = (h.0, q)

pub is_empty-all_paths : (es : List Entry) → is_empty (all_paths es) ≡ is_empty es
unfolding all_paths
is_empty-all_paths [] = refl
is_empty-all_paths (e ∷ es) = ground arith

-- The core paths that the loop of a delta finds are among its paths.
pub cores-is_subset :
    (classify : String → String) (ps cs : List String)
    → core_of classify ps ≡ some cs
    → is_subset (sorted_set cs) (sorted_set ps) ≡ true
unfolding sorted_set
cores-is_subset classify ps cs e =
    let Inside : String → Type 0 = λ x. is_member x (sorted_set ps) ≡ true in
    let inside : All Inside ps =
      All-map Inside ps (λ x q. is_member-sorted_set x ps ∙ q) (All-is_member ps) in
    let found : All Inside cs =
      subst (AllSome Inside) e (AllSome-core_of Inside classify ps inside) in
    All→is_subset (sorted_set cs) (sorted_set ps)
      (All-order_by text_le Inside (distinct cs) (All-distinct Inside cs found))
