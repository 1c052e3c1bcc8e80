-- ===== src/CommentLedger/Reports.antt =====
-- The reports on the ledger: what is stuck, what waits for a reply, and the system's own posts.
use mathlib.Core.List.{Permᴰ}
use agent_city.Prelude.{
  ℕ, zero, suc, ◌+◌, ◌≤◌, ◌≡◌, refl, sym, ap, ◌∙◌, String, Bool, true, false, not, ◌&&◌, Option,
  none, some, List, [], ◌∷◌, ◌++◌, leb, ltb, eqb, min, keep, take, if◌then◌else◌, arith, All,
  length,
}
use agent_city.Prelude.Sort.{order_by, order_by-Permᴰ, order_by-InOrder, InOrder}
use agent_city.CommentLedger.{
  CommentEntry, CommentStatus, Ledger, seen, enqueued, replied, own, is_unreplied,
}

abbrev Row : Type 0
Row = String × CommentEntry

abbrev pub needs_processing : CommentEntry → Bool
needs_processing e = is_unreplied e.status

abbrev pub is_from_self : CommentEntry → Bool
is_from_self e = e.is_own

abbrev pub same_status : CommentStatus → CommentStatus → Bool
same_status seen seen = true
same_status enqueued enqueued = true
same_status replied replied = true
same_status own own = true
same_status _ _ = false

abbrev enqueued_time : CommentEntry → ℕ
enqueued_time e = elim e.enqueued_at [ none ↦ 0 | some t ↦ t ]

-- The rows that `stuck_comments` selects.
abbrev pub is_stuck : ℕ → ℕ → Row → Bool
is_stuck now max_age r =
    same_status r.1.status enqueued
    && not r.1.is_own
    && elim r.1.enqueued_at [ none ↦ false | some t ↦ ltb (t + max_age) now ]

-- `ORDER BY enqueued_at ASC`
abbrev pub by_enqueued : Row → Row → Bool
by_enqueued a b = leb (enqueued_time a.1) (enqueued_time b.1)

unfoldable pub stuck_comments : ℕ → ℕ → ℕ → Ledger → List Row
stuck_comments now max_age limit d =
    take limit (order_by by_enqueued (keep (is_stuck now max_age) d))

-- The rows that `unreplied_comments` selects.
abbrev pub is_waiting : Option ℕ → Row → Bool
is_waiting none r = is_unreplied r.1.status && not r.1.is_own
is_waiting (some n) r = is_unreplied r.1.status && not r.1.is_own && eqb r.1.discussion_number n

-- `ORDER BY seen_at ASC`
abbrev pub by_seen : Row → Row → Bool
by_seen a b = leb a.1.seen_at b.1.seen_at

unfoldable pub unreplied_comments : Option ℕ → Ledger → List Row
unreplied_comments thread d = order_by by_seen (keep (is_waiting thread) d)

-- `ORDER BY seen_at DESC`
abbrev pub by_newest : Row → Row → Bool
by_newest a b = leb b.1.seen_at a.1.seen_at

abbrev pub is_own_post : Row → Bool
is_own_post r = r.1.is_own

unfoldable pub recent_own_posts : ℕ → Ledger → List Row
recent_own_posts limit d = take limit (order_by by_newest (keep is_own_post d))

-- The counts of `comment_stats` by source and status, with 0 for a pair that no comment has.
unfoldable pub comment_count : Ledger → Bool → CommentStatus → ℕ
comment_count d self s =
    length (keep (λ r. (if self then r.1.is_own else not r.1.is_own) && same_status r.1.status s) d)

unfoldable pub comment_total : Ledger → ℕ
unfolding comment_count
comment_total d =
    comment_count d true seen
    + comment_count d true enqueued
    + comment_count d true replied
    + comment_count d true own
    + comment_count d false seen
    + comment_count d false enqueued
    + comment_count d false replied
    + comment_count d false own

comment_total-length : (d : Ledger) → comment_total d ≡ length d
unfolding comment_total comment_count keep
comment_total-length [] = omega arith
comment_total-length ((id, e) ∷ d) = ground (arith, comment_total-length d)

drop : {A : Type 0} → ℕ → List A → List A
drop zero xs = xs
drop (suc n) [] = []
drop (suc n) (x ∷ xs) = drop n xs

take-drop : {A : Type 0} (n : ℕ) (xs : List A) → take n xs ++ drop n xs ≡ xs
unfolding drop
take-drop zero xs = refl
take-drop (suc n) [] = refl
take-drop (suc n) (x ∷ xs) = ap (x ∷◌) (take-drop n xs)

length-take : {A : Type 0} (n : ℕ) (xs : List A) → length (take n xs) ≡ min n (length xs)
length-take zero xs = omega arith
length-take (suc n) [] = omega arith
length-take (suc n) (x ∷ xs) = omega (arith, length-take n xs)

-- A report is the first rows, up to a limit, of those that pass a test, in an order.
pub record FirstOf (test : Row → Bool) (before : Row → Row → Bool) (limit : ℕ) (d : Ledger)
    (report : List Row) : Type 0 where
  pub others : List Row
  pub ordered : List Row
  pub first : report ++ others ≡ ordered
  pub same_rows : Permᴰ (keep test d) ordered
  pub in_order : InOrder before ordered
  pub as_many : length report ≡ min limit (length (keep test d))

Permᴰ-length : {A : Type 0} {xs ys : List A} → Permᴰ xs ys → length xs ≡ length ys
Permᴰ-length Permᴰ.nil = refl
Permᴰ-length (Permᴰ.cons _ p) = ap suc (Permᴰ-length p)
Permᴰ-length (Permᴰ.swap _ _) = refl
Permᴰ-length (Permᴰ.trans p q) = Permᴰ-length p ∙ Permᴰ-length q

take-FirstOf :
    (test : Row → Bool) (before : Row → Row → Bool) (limit : ℕ) (d : Ledger)
    → InOrder before (order_by before (keep test d))
    → FirstOf test before limit d (take limit (order_by before (keep test d)))
take-FirstOf test before limit d o =
    let rows = order_by before (keep test d) in
    record {
      others = drop limit rows;
      ordered = rows;
      first = take-drop limit rows;
      same_rows = order_by-Permᴰ before (keep test d);
      in_order = o;
      as_many =
          length-take limit rows
          ∙ ap (min limit) (sym (Permᴰ-length (order_by-Permᴰ before (keep test d))));
    }

All-trivial : (xs : List Row) → All (λ (_ : Row). 0 ≤ 0) xs
All-trivial [] = tt
All-trivial (x ∷ xs) = (omega arith, All-trivial xs)

in_time :
    (before : Row → Row → Bool)
    → ((a b : Row) → before a b ≡ false → before b a ≡ true)
    → ((a b c : Row) → before a b ≡ true → before b c ≡ true → before a c ≡ true)
    → (rows : List Row) → InOrder before (order_by before rows)
in_time before total join rows =
    order_by-InOrder before (λ (_ : Row). 0 ≤ 0) total (λ a b c _ h k. join a b c h k) rows
      (All-trivial rows)

-- stuck_comments gives the comments from outside that have been enqueued for longer than the age, the
-- longest first, up to the limit, and as many as there are or as the limit allows; unreplied_comments
-- gives each comment from outside that is seen or enqueued, of one thread or of all, the first seen
-- first; recent_own_posts gives the system's own comments, the last seen first, up to the limit; and the
-- counts of comment_stats add up to all the comments.
pub ledger_reports :
    (now max_age limit : ℕ) (thread : Option ℕ) (d : Ledger)
    → FirstOf (is_stuck now max_age) by_enqueued limit d (stuck_comments now max_age limit d)
      × (Permᴰ (keep (is_waiting thread) d) (unreplied_comments thread d)
          × InOrder by_seen (unreplied_comments thread d))
      × FirstOf is_own_post by_newest limit d (recent_own_posts limit d)
      × (comment_total d ≡ length d)
unfolding stuck_comments unreplied_comments recent_own_posts
ledger_reports now max_age limit thread d = (
  take-FirstOf (is_stuck now max_age) by_enqueued limit d
      (in_time by_enqueued (λ a b h. ground arith) (λ a b c h k. ground arith) _),
  (order_by-Permᴰ by_seen _, in_time by_seen (λ a b h. ground arith) (λ a b c h k. ground arith) _),
  take-FirstOf is_own_post by_newest limit d
      (in_time by_newest (λ a b h. ground arith) (λ a b c h k. ground arith) _),
  comment_total-length d,
)
