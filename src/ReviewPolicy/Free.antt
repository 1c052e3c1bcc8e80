-- ===== src/ReviewPolicy/Free.antt =====
-- city/review_governance/policy.py: the test of each path that the loop of `evaluate_base_drift` and its
-- `changed & reviewed_paths` come to, in whatever order the changed files are listed.
use agent_city.Prelude.{
  ◌≡◌, refl, sym, ap, ◌∙◌, inl, inr, String, Bool, true, false, not, ◌&&◌, ◌||◌, none, some, List,
  [], ◌∷◌, ◌++◌, if◌then◌else◌, arith, Bool-cases, eq_iff,
}
use agent_city.Prelude.Key.{◌==◌, text_key}
use agent_city.Prelude.Sort.{place, order_by}
use agent_city.ReviewPolicy.Scope.{Entry, is_member, entry_le}
use agent_city.ReviewPolicy.{core_of, common, all_paths, paths_of, is_empty}

unfoldable pub all_of : (String → Bool) → List String → Bool
all_of test [] = true
all_of test (x ∷ xs) = let rest = all_of test xs in if test x then rest else false

-- The path is not one of these, and it is known not to be core.
abbrev pub is_free : (String → String) → List String → String → Bool
is_free classify reviewed p = not (is_member p reviewed) && (p == "" || classify p == "non_core")

all_of-++ :
    (test : String → Bool) (xs ys : List String)
    → all_of test (xs ++ ys) ≡ all_of test xs && all_of test ys
unfolding all_of
all_of-++ test [] ys = refl
all_of-++ test (x ∷ xs) ys = ground (arith, all_of-++ test xs ys)

all_of-place :
    (test : String → Bool) (e : Entry) (es : List Entry)
    → all_of test (all_paths (place entry_le e es))
      ≡ all_of test (paths_of e) && all_of test (all_paths es)
unfolding place all_paths
all_of-place test e [] = all_of-++ test (paths_of e) []
all_of-place test e (f ∷ fs) = elim (Bool-cases (entry_le e f)) [
  | inl first ↦ rw first (all_of-++ test (paths_of e) (all_paths (f ∷ fs)))
  | inr later ↦ rw later (
      ground (
        arith,
        all_of-++ test (paths_of f) (all_paths (place entry_le e fs)),
        all_of-++ test (paths_of f) (all_paths fs),
        all_of-place test e fs,
      ))
]

-- The order of the entries is no matter.
pub all_of-order_by :
    (test : String → Bool) (es : List Entry)
    → all_of test (all_paths (order_by entry_le es)) ≡ all_of test (all_paths es)
unfolding order_by all_paths
all_of-order_by test [] = refl
all_of-order_by test (e ∷ es) = ground (
  arith,
  all_of-place test e (order_by entry_le es),
  all_of-++ test (paths_of e) (all_paths es),
  all_of-order_by test es,
)

is_member-all_of :
    (p : String) (ys : List String) → is_member p ys ≡ not (all_of (λ y. not (y == p)) ys)
unfolding is_member all_of
is_member-all_of p [] = refl
is_member-all_of p (y ∷ ys) = ground (arith, is_member-all_of p ys)

pub is_member-paths :
    (p : String) (es : List Entry)
    → is_member p (all_paths (order_by entry_le es)) ≡ is_member p (all_paths es)
is_member-paths p es =
    is_member-all_of p (all_paths (order_by entry_le es))
    ∙ ap not (all_of-order_by (λ y. not (y == p)) es)
    ∙ sym (is_member-all_of p (all_paths es))

pub all_of-reviewed :
    (classify : String → String) (rs : List Entry) (ps : List String)
    → all_of (is_free classify (all_paths (order_by entry_le rs))) ps
      ≡ all_of (is_free classify (all_paths rs)) ps
unfolding all_of
all_of-reviewed classify rs [] = refl
all_of-reviewed classify rs (p ∷ ps) =
    ground (arith, is_member-paths p rs, all_of-reviewed classify rs ps)

not_both : (s : String) → (s == "core") ≡ true → (s == "non_core") ≡ false
not_both s h = rw ((eq_iff s "core").0 h) refl

-- What the loop leaves and the common paths say it as well.
pub is_free-core_of :
    (classify : String → String) (ys ps : List String)
    → elim (core_of classify ps) [ none ↦ false | some cs ↦ is_empty (common ps ys) && is_empty cs ]
      ≡ all_of (is_free classify ys) ps
unfolding core_of common all_of
is_free-core_of classify ys [] = refl
is_free-core_of classify ys (p ∷ ps) =
    ground (arith, is_free-core_of classify ys ps, not_both (classify p))
