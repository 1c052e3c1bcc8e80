-- ===== src/Tests/ReviewPolicy.antt =====
-- The base moved by one document, which the review of one module does not touch.
use agent_city.Prelude.{◌≡◌, String, true, none, some, [], ◌∷◌, ◌&&◌}
use agent_city.ReviewPolicy.{evaluate_base_drift}
use agent_city.ReviewPolicy.Scope.{Entry, modified}
use agent_city.ReviewPolicy.Usable.{usable, base_holds, evaluate_base_drift-usable}

abbrev changed : String → Entry
changed p = record {
  path = p;
  change_type = modified;
  previous_path = none;
  base_blob_sha = some "0123456789abcdef0123456789abcdef01234567";
  head_blob_sha = some "89abcdef0123456789abcdef0123456789abcdef";
}

evaluate_base_drift-usable_example :
    usable true true (
      evaluate_base_drift
        (λ s. true)
        (λ s. "non_core")
        "a"
        "b"
        (changed "city/b.py" ∷ [])
        (some (changed "docs/a.md" ∷ []))
        true)
    ≡ some (
        true
        && true
        && base_holds
            (λ s. true)
            (λ s. "non_core")
            "a"
            "b"
            (changed "city/b.py" ∷ [])
            (some (changed "docs/a.md" ∷ []))
            true)
evaluate_base_drift-usable_example =
    evaluate_base_drift-usable (λ s. true) (λ s. "non_core") "a" "b" (changed "city/b.py" ∷ [])
      (some (changed "docs/a.md" ∷ [])) true true true
