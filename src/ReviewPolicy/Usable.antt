-- ===== src/ReviewPolicy/Usable.antt =====
-- city/review_governance/policy.py: when a verdict can still be used.
use agent_city.Prelude.{
  ◌≡◌, refl, ◌∙◌, ◌⊎◌, inl, inr, String, Bool, true, false, not, ◌&&◌, ◌||◌, Option, none, some,
  List, arith, Bool-cases, Option-cases, if_either,
}
use agent_city.Prelude.Key.{◌==◌, text_key}
use agent_city.Prelude.Sort.{order_by}
use agent_city.ReviewPolicy.Scope.{Entry, canonical_scope, is_some, entry_le}
use agent_city.ReviewPolicy.Sets.{
  is_empty-order_by, is_empty-sorted_set, is_empty-all_paths, cores-is_subset,
}
use agent_city.ReviewPolicy.Free.{
  all_of, is_free, all_of-order_by, all_of-reviewed, is_free-core_of,
}
use agent_city.ReviewPolicy.{
  evaluate_base_drift, evaluate_policy_c, classify_delta, core_of, all_paths, is_empty,
  is_consistent, BaseDriftEvaluation,
}

-- Whether a verdict can be used, or `none` for an exception.
unfoldable pub usable : Bool → Bool → Option BaseDriftEvaluation → Option Bool
usable valid ready none = none
usable valid ready (some d) = some (evaluate_policy_c valid d ready).is_usable

usable-classify_delta :
    (classify : String → String) (valid ready : Bool) (ds rs : List Entry)
    → is_empty ds ≡ false
    → usable valid ready (classify_delta classify ds rs)
      ≡ some (valid && ready && all_of (is_free classify (all_paths rs)) (all_paths ds))
unfolding classify_delta usable evaluate_policy_c is_consistent
usable-classify_delta classify valid ready ds rs listed =
    let ps = all_paths ds in
    let ys = all_paths rs in
    let paths = is_empty-sorted_set ps ∙ is_empty-all_paths ds ∙ listed in
    let free = is_free-core_of classify ys ps in
    elim (Option-cases (core_of classify ps)) [
      | inl unclear ↦ ground (arith, free, unclear, paths)
      | inr (cs, e) ↦
          ground (arith, free, e, paths, cores-is_subset classify ps cs e, is_empty-sorted_set cs)
    ]

canonical_scope-cases :
    (is_nfc : String → Bool) (es : List Entry)
    → (canonical_scope is_nfc es ≡ none) ⊎ (canonical_scope is_nfc es ≡ some (order_by entry_le es))
unfolding canonical_scope
canonical_scope-cases is_nfc es =
    if_either (λ o. (o ≡ none) ⊎ (o ≡ some (order_by entry_le es))) _ (inr refl) (inl refl)

-- Both scopes are canonical, something changed, and each path that changed is free.
unfoldable pub is_unaffected : (String → Bool) → (String → String) → List Entry → List Entry → Bool
is_unaffected is_nfc classify reviewed delta =
    is_some (canonical_scope is_nfc delta)
    && is_some (canonical_scope is_nfc reviewed)
    && not (is_empty delta)
    && all_of (is_free classify (all_paths reviewed)) (all_paths delta)

-- The base stands where it stood, or what changed since is known and leaves the review unaffected.
unfoldable pub base_holds :
    (String → Bool)
    → (String → String)
    → String
    → String
    → List Entry
    → Option (List Entry)
    → Bool
    → Bool
base_holds is_nfc classify request_base current_base reviewed delta ancestry =
    request_base == current_base
    || (ancestry
        && elim delta [ none ↦ false | some es ↦ is_unaffected is_nfc classify reviewed es ])

usable-delta :
    (is_nfc : String → Bool) (classify : String → String) (request_base current_base : String)
    (reviewed es : List Entry) (valid ready : Bool)
    → (request_base == current_base) ≡ false
    → usable valid ready
        (evaluate_base_drift is_nfc classify request_base current_base reviewed (some es) true)
      ≡ some (valid && ready && is_unaffected is_nfc classify reviewed es)
unfolding evaluate_base_drift usable evaluate_policy_c is_consistent is_unaffected
usable-delta is_nfc classify request_base current_base reviewed es valid ready moved =
    let changed = is_empty-order_by entry_le es in
    elim (canonical_scope-cases is_nfc es) [
      | inl bad ↦ ground (arith, moved, bad)
      | inr good ↦ elim (canonical_scope-cases is_nfc reviewed) [
        | inl bad ↦ ground (arith, moved, good, bad)
        | inr fine ↦ elim (Bool-cases (is_empty es)) [
          | inl nothing_changed ↦ ground (arith, moved, good, fine, changed, nothing_changed)
          | inr listed ↦ ground (
            arith,
            moved,
            good,
            fine,
            changed,
            listed,
            usable-classify_delta classify valid ready (order_by entry_le es)
                (order_by entry_le reviewed) (changed ∙ listed),
            all_of-order_by (is_free classify (all_paths (order_by entry_le reviewed))) es,
            all_of-reviewed classify reviewed (all_paths es),
          )
        ]
      ]
    ]

-- `evaluate_base_drift` raises for no input, and the decision that `evaluate_policy_c` makes of its result
-- says that the verdict is usable exactly if the verdict is valid, the integration ready, and either the base
-- is the one of the request or ancestry and delta are available, both scopes are canonical, the delta has an
-- entry, and each path of it, old or new, is not one of the review's paths and is, unless it is empty, known to
-- be "non_core"; in whatever order the two scopes are listed.
pub evaluate_base_drift-usable :
    (is_nfc : String → Bool) (classify : String → String) (request_base current_base : String)
    (reviewed : List Entry) (delta : Option (List Entry)) (ancestry valid ready : Bool)
    → usable valid ready
        (evaluate_base_drift is_nfc classify request_base current_base reviewed delta ancestry)
      ≡ some (
          valid
          && ready
          && base_holds is_nfc classify request_base current_base reviewed delta ancestry)
unfolding base_holds evaluate_base_drift usable evaluate_policy_c is_consistent
evaluate_base_drift-usable is_nfc classify request_base current_base reviewed delta ancestry valid
      ready =
    elim (Bool-cases (request_base == current_base)) [
      | inl same ↦ ground (arith, same)
      | inr moved ↦ moved_base delta ancestry moved
    ]
  where
    moved_base :
        (o : Option (List Entry)) (a : Bool)
        → (request_base == current_base) ≡ false
        → usable valid ready
            (evaluate_base_drift is_nfc classify request_base current_base reviewed o a)
          ≡ some
              (valid && ready && base_holds is_nfc classify request_base current_base reviewed o a)
    moved_base o false moved = ground (arith, moved)
    moved_base none true moved = ground (arith, moved)
    moved_base (some es) true moved = ground (
      arith,
      moved,
      usable-delta is_nfc classify request_base current_base reviewed es valid ready moved,
    )
