-- ===== src/ReviewPolicy/Scope.antt =====
-- city/review_governance/scope.py: the changed files of a review, in canonical form.
use Prim.Native.Char.{code}
use agent_city.Prelude.{
  ℕ, String, Bool, true, false, not, ◌&&◌, ◌||◌, Option, none, some, List, [], ◌∷◌, leb, eqb,
  length, map, if◌then◌else◌,
}
use agent_city.Prelude.Key.{◌==◌, text_key}
use agent_city.Prelude.Texts.{text_le}
use agent_city.Prelude.Sort.{order_by}

pub data ChangeType : Type 0 where
  added modified deleted renamed copied : ChangeType

pub record Entry : Type 0 where
  pub path : String
  pub change_type : ChangeType
  pub previous_path : Option String
  pub base_blob_sha : Option String
  pub head_blob_sha : Option String

unfoldable pub chars : String → List ℕ
chars String.[] = []
chars (String.◌∷◌ c s) = code c ∷ chars s

unfoldable pub holds_any : (ℕ → Bool) → List ℕ → Bool
holds_any test [] = false
holds_any test (c ∷ cs) = let rest = holds_any test cs in if test c then true else rest

-- The parts between the slashes; `part` is what was read of the part so far.
unfoldable pub parts_of : List ℕ → List ℕ → List (List ℕ)
parts_of part [] = part ∷ []
parts_of part (c ∷ cs) =
    let same = parts_of (c ∷ part) cs in
    let next = parts_of [] cs in if eqb c 47 then part ∷ next else same

-- part in {"", ".", ".."}
abbrev pub is_dots : List ℕ → Bool
is_dots [] = true
is_dots (a ∷ []) = eqb a 46
is_dots (a ∷ b ∷ []) = eqb a 46 && eqb b 46
is_dots _ = false

unfoldable pub any_dots : List (List ℕ) → Bool
any_dots [] = false
any_dots (p ∷ ps) = let rest = any_dots ps in if is_dots p then true else rest

-- A path from "/" has an empty first part.
unfoldable pub is_path : (String → Bool) → String → Bool
is_path is_nfc s =
    let cs = chars s in
    not (s == "")
    && leb (length cs) 1024
    && is_nfc s
    && not (holds_any (λ c. eqb c 92 || eqb c 0) cs)
    && not (any_dots (parts_of [] cs))

abbrev pub is_hex : ℕ → Bool
is_hex c = (leb 48 c && leb c 57) || (leb 97 c && leb c 102)

-- SHA_RE
unfoldable pub is_sha : String → Bool
is_sha s = let cs = chars s in eqb (length cs) 40 && not (holds_any (λ c. not (is_hex c)) cs)

abbrev pub is_some {ℓ} : {A : Type ℓ} → Option A → Bool
is_some none = false
is_some (some _) = true

abbrev pub or_valid : (String → Bool) → Option String → Bool
or_valid test none = true
or_valid test (some s) = test s

abbrev pub same_text : Option String → Option String → Bool
same_text none none = true
same_text (some a) (some b) = a == b
same_text _ _ = false

-- What the kind of the change asks of the fields.
unfoldable pub fits_type : Entry → Bool
fits_type e = elim e.change_type [
  | added ↦
      not (is_some e.previous_path) && not (is_some e.base_blob_sha) && is_some e.head_blob_sha
  | modified ↦
      not (is_some e.previous_path)
      && is_some e.base_blob_sha
      && is_some e.head_blob_sha
      && not (same_text e.base_blob_sha e.head_blob_sha)
  | deleted ↦
      not (is_some e.previous_path) && is_some e.base_blob_sha && not (is_some e.head_blob_sha)
  | renamed ↦
      is_some e.previous_path
      && is_some e.base_blob_sha
      && is_some e.head_blob_sha
      && not (same_text e.previous_path (some e.path))
  | copied ↦
      is_some e.previous_path
      && is_some e.base_blob_sha
      && is_some e.head_blob_sha
      && not (same_text e.previous_path (some e.path))
]

-- An entry that `normalize_entry` returns, which it does as it stands.
unfoldable pub is_normal : (String → Bool) → Entry → Bool
is_normal is_nfc e =
    is_path is_nfc e.path
    && or_valid (is_path is_nfc) e.previous_path
    && or_valid is_sha e.base_blob_sha
    && or_valid is_sha e.head_blob_sha
    && fits_type e

unfoldable pub all_normal : (String → Bool) → List Entry → Bool
all_normal is_nfc [] = true
all_normal is_nfc (e ∷ es) =
    let rest = all_normal is_nfc es in if is_normal is_nfc e then rest else false

unfoldable pub is_member : String → List String → Bool
is_member x [] = false
is_member x (y ∷ ys) = let rest = is_member x ys in if y == x then true else rest

unfoldable pub all_distinct : List String → Bool
all_distinct [] = true
all_distinct (x ∷ xs) = let rest = all_distinct xs in if is_member x xs then false else rest

unfoldable pub source_paths : List Entry → List String
source_paths [] = []
source_paths (e ∷ es) =
    let rest = source_paths es in
    elim e.change_type [
      | renamed ↦ elim e.previous_path [ none ↦ rest | some p ↦ p ∷ rest ]
      | copied ↦ elim e.previous_path [ none ↦ rest | some p ↦ p ∷ rest ]
      | _ ↦ rest
    ]

abbrev or_empty : Option String → String
or_empty none = ""
or_empty (some s) = s

-- The order of (path, previous_path or "").
abbrev pub entry_le : Entry → Entry → Bool
entry_le a b =
    if a.path == b.path
    then text_le (or_empty a.previous_path) (or_empty b.previous_path)
    else text_le a.path b.path

-- `none` is a ScopeError. That no two entries have one source, path and kind follows from their paths.
unfoldable pub canonical_scope : (String → Bool) → List Entry → Option (List Entry)
canonical_scope is_nfc es =
    if all_normal is_nfc es
      && leb (length es) 2048
      && all_distinct (map (λ e. e.path) es)
      && all_distinct (source_paths es)
    then some (order_by entry_le es)
    else none
