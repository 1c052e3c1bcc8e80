-- ===== src/Council/Election/Ranking.antt =====
-- The ranking of an election: it is in order, it holds the eligible candidates, and it does not
-- depend on the order in which the candidates are given.
use mathlib.Core.List.{Perm, Permᴰ, Nodup, Nodup-cons, mem-cons_self, map}
use mathlib.Core.Path.{ap₂}
use mathlib.Core.List.Perm
use text.Mathlib.TextEquality.{IsScalar-prop}
use mathlib.Core.Logic.{∥∥₁_elim}
use agent_city.Prelude.{
  String, ◌≡◌, refl, sym, ◌∙◌, ◌≢◌, inl, inr, true, false, List, [], ◌∷◌, arith, keep,
  if◌then◌else◌, All, Ordered, Bool-cases, All-map,
}
use agent_city.Prelude.Texts.{text_le_total, text_le_trans, text_le_antisym}
use agent_city.Council.Election.{Candidate, is_eligible, ranks_before, place, sort, ranking}

abbrev pub Before : Candidate → Candidate → Type 0
Before a b = ranks_before a b ≡ true

Before-total : (a b : Candidate) → ranks_before a b ≡ false → Before b a
unfolding ranks_before
Before-total a b h = ground (arith, text_le_total a.name b.name)

Before-trans : (a b c : Candidate) → Before a b → Before b c → Before a c
unfolding ranks_before
Before-trans a b c p q = ground (arith, text_le_trans a.name b.name c.name)

Before-antisym : (a b : Candidate) → Before a b → Before b a → a.name ≡ b.name
unfolding ranks_before
Before-antisym a b p q = ground (arith, text_le_antisym a.name b.name)

All-place :
    (P : Candidate → Type 0) (c : Candidate) (ds : List Candidate)
    → P c
    → All P ds
    → All P (place c ds)
unfolding place
All-place P c [] h hs = (h, tt)
All-place P c (d ∷ ds) h hs = elim (Bool-cases (ranks_before c d)) [
  | inl first ↦ rw first (h, hs)
  | inr later ↦ rw later (hs.0, All-place P c ds h hs.1)
]

place-Ordered :
    (c : Candidate) (ds : List Candidate) → Ordered Before ds → Ordered Before (place c ds)
unfolding place
place-Ordered c [] h = (tt, tt)
place-Ordered c (d ∷ ds) h = elim (Bool-cases (ranks_before c d)) [
  | inl first ↦ rw first ((first, All-map (Before c) ds (λ e. Before-trans c d e first) h.0), h)
  | inr later ↦
      rw later (All-place (Before d) c ds (Before-total c d later) h.0, place-Ordered c ds h.1)
]

pub sort-Ordered : (cs : List Candidate) → Ordered Before (sort cs)
unfolding sort
sort-Ordered [] = tt
sort-Ordered (c ∷ cs) = place-Ordered c (sort cs) (sort-Ordered cs)

place-perm : (c : Candidate) (ds : List Candidate) → Perm (place c ds) (c ∷ ds)
unfolding place
place-perm c [] = Perm.refl (c ∷ [])
place-perm c (d ∷ ds) = elim (Bool-cases (ranks_before c d)) [
  | inl first ↦ rw first (Perm.refl (c ∷ d ∷ ds))
  | inr later ↦ rw later (Perm.trans (Perm.cons d (place-perm c ds)) ∣ Permᴰ.swap refl refl ∣₁)
]

pub sort-perm : (cs : List Candidate) → Perm (sort cs) cs
unfolding sort
sort-perm [] = Perm.refl []
sort-perm (c ∷ cs) = Perm.trans (place-perm c (sort cs)) (Perm.cons c (sort-perm cs))

-- Two candidates of different names are placed in either order with the same result.
place_comm :
    (a b : Candidate) (cs : List Candidate)
    → a.name ≢ b.name
    → place a (place b cs) ≡ place b (place a cs)
unfolding place
place_comm a b [] ne = ground (arith, Before-total a b, Before-total b a, Before-antisym a b)
place_comm a b (c ∷ cs) ne = ground (
  arith,
  place_comm a b cs,
  Before-total a b,
  Before-total b a,
  Before-antisym a b,
  Before-trans a b c,
  Before-trans b a c,
  Before-total a c,
  Before-total b c,
  Before-trans a c b,
  Before-trans b c a,
)

ranking-cons :
    (c : Candidate) (cs : List Candidate)
    → ranking (c ∷ cs) ≡ (if is_eligible c then place c (ranking cs) else ranking cs)
unfolding ranking keep sort
ranking-cons c cs = elim (Bool-cases (is_eligible c)) [ inl fit ↦ rw fit | inr unfit ↦ rw unfit ]

abbrev pub names : List Candidate → List String
names = map (λ c. c.name)

head_differs : (a b : String) (l : List String) → Nodup (a ∷ b ∷ l) → a ≢ b
head_differs a b l d p = (Nodup-cons.0 d).0 (rw p mem-cons_self)

ranking-Permᴰ : {cs ds : List Candidate} → Permᴰ cs ds → Nodup (names cs) → ranking cs ≡ ranking ds
ranking-Permᴰ Permᴰ.nil d = refl
ranking-Permᴰ (Permᴰ.cons {a} {b} {l₁} {l₂} p q) d =
    ranking-cons a l₁
    ∙ ap₂ (λ c r. if is_eligible c then place c r else r) p (ranking-Permᴰ q (Nodup-cons.0 d).1)
    ∙ sym (ranking-cons b l₂)
ranking-Permᴰ (Permᴰ.swap {a} {b} {a'} {b'} {l} p q) d =
    rw (← p, ← q, ranking-cons a, ranking-cons b l, ranking-cons b, ranking-cons a l)
      (ground (arith, place_comm a b (ranking l) (head_differs _ _ _ d)))
ranking-Permᴰ (Permᴰ.trans {l₁} {l₂} {l₃} p q) d =
    ranking-Permᴰ p d ∙ ranking-Permᴰ q (Perm.nodup (Perm.map (λ (c : Candidate). c.name) ∣ p ∣₁) d)

Ranking-set : IsSet (List Candidate)
Ranking-set = hlevel IsScalar-prop

-- The ranking is the same whatever the order of the candidates, if their names differ.
pub ranking-Perm :
    {cs ds : List Candidate} → Perm cs ds → Nodup (names cs) → ranking cs ≡ ranking ds
ranking-Perm {cs} {ds} p d =
    ∥∥₁_elim p (Ranking-set (ranking cs) (ranking ds)) (λ q. ranking-Permᴰ q d)
