-- ===== src/Prelude/Sort.antt =====
-- `ORDER BY` and `sorted(…, key=…)`: stable insertion, by a test that the first may stand before the
-- second.
use mathlib.Core.Path.{◌≡◌, refl}
use mathlib.Core.Logic.{inl, inr}
use mathlib.Core.Bool.{Bool, true, false}
use mathlib.Core.List.{List, [], ◌∷◌, Permᴰ}
use mathlib.Core.List.Permᴰ
use agent_city.Prelude.Lists.{All, Ordered, All-map}
use agent_city.Prelude.Tests.{Bool-cases, if◌then◌else◌}

module _ {ℓ} {A : Type ℓ} (before : A → A → Bool) where
  unfoldable pub place : A → List A → List A
  place x [] = x ∷ []
  place x (y ∷ ys) = let rest = place x ys in if before x y then x ∷ y ∷ ys else y ∷ rest

  unfoldable pub order_by : List A → List A
  unfolding place
  order_by [] = []
  order_by (x ∷ xs) = place x (order_by xs)

  place-Permᴰ : (x : A) (ys : List A) → Permᴰ (x ∷ ys) (place x ys)
  unfolding place
  place-Permᴰ x [] = Permᴰ.refl (x ∷ [])
  place-Permᴰ x (y ∷ ys) = elim (Bool-cases (before x y)) [
    | inl first ↦ rw first (Permᴰ.refl (x ∷ y ∷ ys))
    | inr later ↦ rw later (Permᴰ.trans (Permᴰ.swap refl refl) (Permᴰ.cons refl (place-Permᴰ x ys)))
  ]

  -- Nothing is lost and nothing is listed twice.
  pub order_by-Permᴰ : (xs : List A) → Permᴰ xs (order_by xs)
  unfolding order_by
  order_by-Permᴰ [] = Permᴰ.nil
  order_by-Permᴰ (x ∷ xs) =
      Permᴰ.trans (Permᴰ.cons refl (order_by-Permᴰ xs)) (place-Permᴰ x (order_by xs))

  pub All-place {κ} : (P : A → Type κ) (x : A) (ys : List A) → P x → All P ys → All P (place x ys)
  unfolding place
  All-place P x [] new old = (new, tt)
  All-place P x (y ∷ ys) new old = elim (Bool-cases (before x y)) [
    | inl first ↦ rw first (new, (old.0, old.1))
    | inr later ↦ rw later (old.0, All-place P x ys new old.1)
  ]

  pub All-order_by {κ} : (P : A → Type κ) (xs : List A) → All P xs → All P (order_by xs)
  unfolding order_by
  All-order_by P [] h = tt
  All-order_by P (x ∷ xs) h = All-place P x (order_by xs) h.0 (All-order_by P xs h.1)

  abbrev pub InOrder : List A → Type 0
  InOrder = Ordered (λ a b. before a b ≡ true)

  module _ {κ} (P : A → Type κ) (total : (a b : A) → before a b ≡ false → before b a ≡ true)
      (join : (a b c : A) → P b → before a b ≡ true → before b c ≡ true → before a c ≡ true) where
    place-InOrder : (x : A) (ys : List A) → All P ys → InOrder ys → InOrder (place x ys)
    unfolding place
    place-InOrder x [] h o = (tt, tt)
    place-InOrder x (y ∷ ys) h o = elim (Bool-cases (before x y)) [
      | inl first ↦ rw first (
        (first, All-map (λ z. before x z ≡ true) ys (λ z q. join x y z h.0 first q) o.0),
        (o.0, o.1),
      )
      | inr later ↦ rw later (
        All-place (λ z. before y z ≡ true) x ys (total x y later) o.0,
        place-InOrder x ys h.1 o.1,
      )
    ]

    pub order_by-InOrder : (xs : List A) → All P xs → InOrder (order_by xs)
    unfolding order_by
    order_by-InOrder [] h = tt
    order_by-InOrder (x ∷ xs) h =
        place-InOrder x (order_by xs) (All-order_by P xs h.1) (order_by-InOrder xs h.1)
