-- ===== src/Prelude/Dict.antt =====
-- A Python dict, or a table with a primary key: pairs in insertion order, each key once.
use mathlib.Core.Path.{◌≡◌, refl, sym, ◌∙◌, subst, subst₂}
use mathlib.Core.Logic.{inl, inr, ◌≢◌}
use agent_city.Prelude.Lists.{All, Ordered, All-append}
use mathlib.Core.Bool.{Bool, true, false}
use mathlib.Core.List.{List, [], ◌∷◌, ◌++◌}
use mathlib.Core.Option.{Option, none, some, some-injective, none-ne-some}
use native.Mathlib.Omega.{arith}
use agent_city.Prelude.Tests.{Bool-cases, if◌then◌else◌}
use agent_city.Prelude.Key.{Key, ◌==◌}

abbrev pub Dict {ℓ κ} : Type ℓ → Type κ → Type (ℓ ⊔ κ)
Dict K V = List (K × V)

module _ {ℓ κ} {K : Type ℓ} ⦃key : Key K⦄ {V : Type κ} where
  -- `d.get(k)`
  unfoldable pub lookup : K → Dict K V → Option V
  lookup k [] = none
  lookup k ((j, v) ∷ d) = if j == k then some v else lookup k d

  -- `k in d`
  unfoldable pub contains : K → Dict K V → Bool
  contains k d = elim (lookup k d) [ none ↦ false | some _ ↦ true ]

  -- `d[k] = v`
  unfoldable pub insert : K → V → Dict K V → Dict K V
  insert k v [] = (k, v) ∷ []
  insert k v ((j, w) ∷ d) = if j == k then (k, v) ∷ d else (j, w) ∷ insert k v d

  -- `d.pop(k, None)`
  unfoldable pub erase : K → Dict K V → Dict K V
  erase k [] = []
  erase k ((j, w) ∷ d) = let rest = erase k d in if j == k then rest else (j, w) ∷ rest

  pub lookup-insert :
      (k j : K) (v : V) (d : Dict K V)
      → lookup j (insert k v d) ≡ (if k == j then some v else lookup j d)
  unfolding lookup insert
  lookup-insert k j v [] = refl
  lookup-insert k j v ((i, w) ∷ d) =
      ground (arith, key.same_iff k j, key.same_iff i k, key.same_iff i j, lookup-insert k j v d)

  pub lookup-erase :
      (k j : K) (d : Dict K V) → lookup j (erase k d) ≡ (if k == j then none else lookup j d)
  unfolding lookup erase
  lookup-erase k j [] = ground arith
  lookup-erase k j ((i, w) ∷ d) =
      ground (arith, key.same_iff k j, key.same_iff i k, key.same_iff i j, lookup-erase k j d)

  -- Every entry that can be looked up has the property.
  abbrev pub Every {μ} : (K → V → Type μ) → Dict K V → Type (ℓ ⊔ κ ⊔ μ)
  Every P d = (k : K) (v : V) → lookup k d ≡ some v → P k v

  pub Every-insert {μ} :
      (P : K → V → Type μ) (k : K) (v : V) (d : Dict K V)
      → P k v
      → Every P d
      → Every P (insert k v d)
  Every-insert P k v d new old j w found = elim (Bool-cases (k == j)) [
    | inl same ↦
        let eq : v ≡ w = some-injective v w (sym (rw same at (lookup-insert k j v d)) ∙ found) in
        subst₂ P ((key.same_iff k j).0 same) eq new
    | inr other ↦ old j w (sym (rw other at (lookup-insert k j v d)) ∙ found)
  ]

  pub Every-erase {μ} :
      (P : K → V → Type μ) (k : K) (d : Dict K V) → Every P d → Every P (erase k d)
  Every-erase P k d old j w found = elim (Bool-cases (k == j)) [
    | inl same ↦ absurd (none-ne-some w (sym (rw same at (lookup-erase k j d)) ∙ found))
    | inr other ↦ old j w (sym (rw other at (lookup-erase k j d)) ∙ found)
  ]

  -- No two entries have one key.
  abbrev pub Unique : Dict K V → Type ℓ
  Unique = Ordered (λ a b. a.0 ≢ b.0)

  -- A new key is put behind the others.
  pub insert_new :
      (k : K) (v : V) (d : Dict K V) → All (λ a. a.0 ≢ k) d → insert k v d ≡ d ++ (k, v) ∷ []
  unfolding insert
  insert_new k v [] h = refl
  insert_new k v ((j, w) ∷ d) h = ground (arith, key.same_iff j k, insert_new k v d h.1)

  -- `INSERT OR REPLACE` by primary key: an old row goes, and the new one stands last.
  unfoldable pub replace : K → V → Dict K V → Dict K V
  replace k v d = erase k d ++ (k, v) ∷ []

  lookup-append :
      (j k : K) (v : V) (d : Dict K V)
      → lookup j (d ++ (k, v) ∷ [])
        ≡ elim (lookup j d) [ some w ↦ some w | none ↦ if k == j then some v else none ]
  unfolding lookup
  lookup-append j k v [] = refl
  lookup-append j k v ((i, w) ∷ d) = ground (arith, lookup-append j k v d)

  pub lookup-replace :
      (k j : K) (v : V) (d : Dict K V)
      → lookup j (replace k v d) ≡ (if k == j then some v else lookup j d)
  unfolding replace
  lookup-replace k j v d = ground (arith, lookup-append j k v (erase k d), lookup-erase k j d)

  pub Every-replace {μ} :
      (P : K → V → Type μ) (k : K) (v : V) (d : Dict K V)
      → P k v
      → Every P d
      → Every P (replace k v d)
  Every-replace P k v d new old j w found = elim (Bool-cases (k == j)) [
    | inl same ↦
        let eq : v ≡ w = some-injective v w (sym (rw same at (lookup-replace k j v d)) ∙ found) in
        subst₂ P ((key.same_iff k j).0 same) eq new
    | inr other ↦ old j w (sym (rw other at (lookup-replace k j v d)) ∙ found)
  ]

  All-erase {μ} : (P : K × V → Type μ) (k : K) (d : Dict K V) → All P d → All P (erase k d)
  unfolding erase
  All-erase P k [] h = tt
  All-erase P k ((j, w) ∷ d) h = elim (Bool-cases (j == k)) [
    | inl same ↦ rw same (All-erase P k d h.1)
    | inr other ↦ rw other (h.0, All-erase P k d h.1)
  ]

  pub All-replace {μ} :
      (P : K × V → Type μ) (k : K) (v : V) (d : Dict K V)
      → P (k, v)
      → All P d
      → All P (replace k v d)
  unfolding replace
  All-replace P k v d new old =
      All-append P (erase k d) ((k, v) ∷ []) (All-erase P k d old) (new, tt)

  pub All-lookup {μ} :
      (P : K × V → Type μ) (k : K) (v : V) (d : Dict K V) → All P d → lookup k d ≡ some v → P (k, v)
  unfolding lookup
  All-lookup P k v [] h found = absurd (none-ne-some v found)
  All-lookup P k v ((j, w) ∷ d) h found = elim (Bool-cases (j == k)) [
    | inl same ↦
        subst₂ (λ a b. P (a, b)) ((key.same_iff j k).0 same) (some-injective w v (rw same at found))
          h.0
    | inr other ↦ All-lookup P k v d h.1 (rw other at found)
  ]

  erase_gone : (k : K) (d : Dict K V) → All (λ e. e.0 ≢ k) (erase k d)
  unfolding erase
  erase_gone k [] = tt
  erase_gone k ((j, w) ∷ d) = elim (Bool-cases (j == k)) [
    | inl same ↦ rw same (erase_gone k d)
    | inr other ↦ rw other ((λ eq. ground (arith, key.same_iff j k)), erase_gone k d)
  ]

  pub Unique-erase : (k : K) (d : Dict K V) → Unique d → Unique (erase k d)
  unfolding erase
  Unique-erase k [] h = tt
  Unique-erase k ((j, w) ∷ d) h = elim (Bool-cases (j == k)) [
    | inl same ↦ rw same (Unique-erase k d h.1)
    | inr other ↦ rw other (All-erase (λ e. j ≢ e.0) k d h.0, Unique-erase k d h.1)
  ]

  Unique-append :
      (k : K) (v : V) (d : Dict K V) → Unique d → All (λ e. e.0 ≢ k) d → Unique (d ++ (k, v) ∷ [])
  Unique-append k v [] h new = (tt, tt)
  Unique-append k v ((j, w) ∷ d) h new =
      (All-append (λ e. j ≢ e.0) d ((k, v) ∷ []) h.0 (new.0, tt), Unique-append k v d h.1 new.1)

  pub Unique-replace : (k : K) (v : V) (d : Dict K V) → Unique d → Unique (replace k v d)
  unfolding replace
  Unique-replace k v d h = Unique-append k v (erase k d) (Unique-erase k d h) (erase_gone k d)

  All-insert {μ} :
      (P : K → Type μ) (k : K) (v : V) (d : Dict K V)
      → P k
      → All (λ e. P e.0) d
      → All (λ e. P e.0) (insert k v d)
  unfolding insert
  All-insert P k v [] new h = (new, tt)
  All-insert P k v ((j, w) ∷ d) new h = elim (Bool-cases (j == k)) [
    | inl same ↦ rw same (new, h.1)
    | inr other ↦ rw other (h.0, All-insert P k v d new h.1)
  ]

  pub Unique-insert : (k : K) (v : V) (d : Dict K V) → Unique d → Unique (insert k v d)
  unfolding insert
  Unique-insert k v [] h = (tt, tt)
  Unique-insert k v ((j, w) ∷ d) h = elim (Bool-cases (j == k)) [
    | inl same ↦
        rw same (subst (λ a. All (λ e. a ≢ e.0) d × Unique d) ((key.same_iff j k).0 same) h)
    | inr other ↦ rw other (
      All-insert (λ i. j ≢ i) k v d (λ eq. ground (arith, key.same_iff j k)) h.0,
      Unique-insert k v d h.1,
    )
  ]
