-- ===== src/ThreadState/Reports.antt =====
-- The sorted reports on the threads: which threads they list, and in what order.
use mathlib.Core.List.{Permᴰ}
use mathlib.Core.Path.{subst}
use agent_city.Prelude.{
  ℕ, ◌*◌, ◌≤◌, ◌<◌, ◌≡◌, refl, Bool, true, false, List, [], ◌∷◌, leb, leb→le, keep, map, arith, All,
  All-map, Ordered, Bool-cases, inl, inr, length, if◌then◌else◌,
}
use agent_city.Prelude.Key.{number_key}
use agent_city.Prelude.Sort.{order_by, order_by-Permᴰ, order_by-InOrder, InOrder}
use agent_city.ThreadState.{Energy, Thread, Board, active, waiting, cooling, archived}
use agent_city.ThreadState.Bounds.{IsThread, IsBoard}
use agent_city.ThreadState.Queries.{
  ThreadSnapshot, row_to_snapshot, at_least, by_energy, by_posts, is_open, is_live, is_repeated,
  threads_needing_response, active_threads, repetition_alerts, stats, count_status,
}

scale : (x y k : ℕ) → x ≤ y → x * k ≤ y * k
scale x y k h = grind arith

scale-cancel : (x y b : ℕ) → 0 < b → x * b ≤ y * b → x ≤ y
scale-cancel x y b w h = grind arith

at_least_trans :
    (a b c : Energy) → 0 < b.whole → at_least a b ≡ true → at_least b c ≡ true → at_least a c ≡ true
at_least_trans a b c w h k =
    let p : c.parts * b.whole ≤ b.parts * c.whole = ground arith in
    let q : b.parts * a.whole ≤ a.parts * b.whole = ground arith in
    let p' = scale (c.parts * b.whole) (b.parts * c.whole) a.whole p in
    let q' = scale (b.parts * a.whole) (a.parts * b.whole) c.whole q in
    let r : c.parts * a.whole * b.whole ≤ a.parts * c.whole * b.whole = grind arith in
    let s = scale-cancel (c.parts * a.whole) (a.parts * c.whole) b.whole w r in ground arith

All-keep {ℓ κ} :
    {A : Type ℓ} (P : A → Type κ) (test : A → Bool) (xs : List A) → All P xs → All P (keep test xs)
unfolding keep
All-keep P test [] h = tt
All-keep P test (x ∷ xs) h = elim (Bool-cases (test x)) [
  | inl yes_ ↦ rw yes_ (h.0, All-keep P test xs h.1)
  | inr no_ ↦ rw no_ (All-keep P test xs h.1)
]

by_energy-InOrder :
    (rows : List (ℕ × Thread))
    → All (λ r. IsThread r.1) rows
    → InOrder by_energy (order_by by_energy rows)
by_energy-InOrder rows =
    order_by-InOrder by_energy (λ r. IsThread r.1) (λ a b h. ground arith)
      (λ a b c w h k. at_least_trans a.1.energy b.1.energy c.1.energy w.is_number h k) rows

by_posts-InOrder :
    (rows : List (ℕ × Thread))
    → All (λ r. IsThread r.1) rows
    → InOrder by_posts (order_by by_posts rows)
by_posts-InOrder rows =
    order_by-InOrder by_posts (λ r. IsThread r.1) (λ a b h. ground arith)
      (λ a b c (w : IsThread b.1) h k. ground arith) rows

stats-total : (d : Board) → (stats d).total ≡ length d
unfolding stats count_status keep
stats-total [] = omega arith
stats-total ((n, t) ∷ d) = ground (arith, stats-total d)

-- A row of the table: the number of a discussion, and its thread.
abbrev pub Row : Type 0
Row = ℕ × Thread

abbrev pub is_going_on : Row → Bool
is_going_on (n, t) = elim t.status [
  | active ↦ true
  | waiting ↦ true
  | cooling ↦ true
  | archived ↦ false
]

abbrev pub is_unanswered : Row → Bool
is_unanswered r = if r.1.unresolved then is_going_on r else false

-- Three or more human posts in a row.
abbrev pub is_insistent : Row → Bool
is_insistent r = if leb 3 r.1.consecutive_human_posts then is_going_on r else false

-- As much energy or more: as fractions.
abbrev pub IsWarmer : Row → Row → Type 0
IsWarmer a b = b.1.energy.parts * a.1.energy.whole ≤ a.1.energy.parts * b.1.energy.whole

abbrev pub IsLonger : Row → Row → Type 0
IsLonger a b = b.1.consecutive_human_posts ≤ a.1.consecutive_human_posts

-- A report is made of the rows of the table that pass a test, each of them once, in an order.
pub record Reports (test : Row → Bool) (InFront : Row → Row → Type 0) (d : Board)
    (report : List ThreadSnapshot) : Type 0 where
  pub rows : List Row
  pub report_of : report ≡ map row_to_snapshot rows
  pub same_rows : Permᴰ (keep test d) rows
  pub in_order : Ordered InFront rows

keep-same :
    (test spec : Row → Bool) (d : Board) → ((r : Row) → test r ≡ spec r) → keep test d ≡ keep spec d
unfolding keep
keep-same test spec [] same = refl
keep-same test spec (r ∷ d) same = ground (arith, same r, keep-same test spec d same)

Ordered-map :
    (before : Row → Row → Bool) (InFront : Row → Row → Type 0) (rows : List Row)
    → ((a b : Row) → before a b ≡ true → InFront a b)
    → InOrder before rows
    → Ordered InFront rows
Ordered-map before InFront [] f h = tt
Ordered-map before InFront (r ∷ rows) f h =
    (All-map (InFront r) rows (f r) h.0, Ordered-map before InFront rows f h.1)

report-Reports :
    (test spec : Row → Bool) (before : Row → Row → Bool) (InFront : Row → Row → Type 0) (d : Board)
    → ((r : Row) → test r ≡ spec r)
    → ((a b : Row) → before a b ≡ true → InFront a b)
    → InOrder before (order_by before (keep test d))
    → Reports spec InFront d (map row_to_snapshot (order_by before (keep test d)))
report-Reports test spec before InFront d same f o = record {
  rows = order_by before (keep test d);
  report_of = refl;
  same_rows =
      subst (λ x. Permᴰ x (order_by before (keep test d))) (keep-same test spec d same)
        (order_by-Permᴰ before (keep test d));
  in_order = Ordered-map before InFront _ f o;
}

is_live-is_going_on : (r : Row) → is_live r ≡ is_going_on r
is_live-is_going_on (n, t) = ground arith

is_open-is_unanswered : (r : Row) → is_open r ≡ is_unanswered r
is_open-is_unanswered r = ground (arith, is_live-is_going_on r)

is_repeated-is_insistent : (r : Row) → is_repeated r ≡ is_insistent r
is_repeated-is_insistent r = ground (arith, is_live-is_going_on r)

-- On a board whose energies lie between nothing and full, with none left to an archived thread:
-- threads_needing_response lists each unresolved thread that is not archived once, and active_threads each
-- thread that is not archived, both with the most energy first; repetition_alerts lists each thread that is
-- not archived and has three or more human posts in a row, with the most posts first; and the counts by
-- status add up to all the threads.
pub board-Reports :
    (d : Board)
    → IsBoard d
    → Reports is_unanswered IsWarmer d (threads_needing_response d)
      × Reports is_going_on IsWarmer d (active_threads d)
      × Reports is_insistent IsLonger d (repetition_alerts d)
      × ((stats d).total ≡ length d)
unfolding threads_needing_response active_threads repetition_alerts
board-Reports d h =
    let warmer : (a b : Row) → by_energy a b ≡ true → IsWarmer a b = λ a b q. leb→le _ _ q in
    let longer : (a b : Row) → by_posts a b ≡ true → IsLonger a b = λ a b q. leb→le _ _ q in
    let kept : (test : Row → Bool) → All (λ r. IsThread r.1) (keep test d) =
      λ test. All-keep (λ r. IsThread r.1) test d h in
    (
      report-Reports is_open is_unanswered by_energy IsWarmer d is_open-is_unanswered warmer
          (by_energy-InOrder _ (kept is_open)),
      report-Reports is_live is_going_on by_energy IsWarmer d is_live-is_going_on warmer
          (by_energy-InOrder _ (kept is_live)),
      report-Reports is_repeated is_insistent by_posts IsLonger d is_repeated-is_insistent longer
          (by_posts-InOrder _ (kept is_repeated)),
      stats-total d,
    )
