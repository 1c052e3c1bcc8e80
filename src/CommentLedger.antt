-- ===== src/CommentLedger.antt =====
-- city/thread_state.py, the comment ledger: one row for each comment that was ever read. Times are
-- milliseconds, and the digest of a body is the argument `digest`.
pub mod Kept
pub mod Reports
use agent_city.Prelude.{
  ℕ, ◌+◌, String, Bool, true, false, not, ◌&&◌, ◌||◌, Option, none, some, List, [], ◌∷◌, ◌++◌, ltb,
  eqb, keep, map, if◌then◌else◌,
}
use agent_city.Prelude.Key.{◌==◌, text_key}
use agent_city.Prelude.Dict.{Dict, lookup, contains}

-- `own` is the status 'self'.
pub data CommentStatus : Type 0 where
  seen enqueued replied own : CommentStatus

pub record CommentEntry : Type 0 where
  pub discussion_number : ℕ
  pub author : String
  pub body_hash : String
  pub is_own : Bool
  pub status : CommentStatus
  pub seen_at : ℕ
  pub enqueued_at : Option ℕ
  pub replied_at : Option ℕ
  pub reply_comment_id : Option String
  pub body_text : Option String

abbrev pub Ledger : Type 0
Ledger = Dict String CommentEntry

-- `UPDATE comment_ledger … WHERE comment_id = ?`
unfoldable pub update : String → (CommentEntry → CommentEntry) → Ledger → Ledger
update id f [] = []
update id f ((j, e) ∷ d) = if j == id then (j, f e) ∷ d else (j, e) ∷ update id f d

abbrev pub is_unreplied : CommentStatus → Bool
is_unreplied seen = true
is_unreplied enqueued = true
is_unreplied _ = false

-- What a call of `ingest_comment` comes to: the new entry, None, or the TypeError of an entry that is
-- made without four of its fields.
pub data Answer : Type 0 where
  recorded : CommentEntry → Answer
  nothing : Answer
  type_error : Answer

abbrev pub stuck_after : ℕ
stuck_after = 900000

-- The comment as it comes in.
pub record Comment : Type 0 where
  pub comment_id : String
  pub discussion_number : ℕ
  pub author : String
  pub body : String
  pub is_own : Bool

unfoldable pub new_entry : (String → String) → ℕ → Comment → CommentEntry
new_entry digest now c = record {
  discussion_number = c.discussion_number;
  author = c.author;
  body_hash = digest c.body;
  is_own = c.is_own;
  status = if c.is_own then own else seen;
  seen_at = now;
  enqueued_at = none;
  replied_at = none;
  reply_comment_id = none;
  body_text = some c.body;
}

abbrev pub seen_again : ℕ → CommentEntry → CommentEntry
seen_again now e = record e { status = seen; seen_at = now }

unfoldable pub ingest_comment : (String → String) → ℕ → Comment → Ledger → Ledger × Answer
unfolding new_entry update
ingest_comment digest now c d = elim (lookup c.comment_id d) [
  | some e ↦
      if is_unreplied e.status && ltb (e.seen_at + stuck_after) now
      then (update c.comment_id (seen_again now) d, type_error)
      else (d, nothing)
  | none ↦ (
    d ++ (c.comment_id, new_entry digest now c) ∷ [],
    recorded (record (new_entry digest now c) { body_text = none }),
  )
]

abbrev pub edited : ℕ → String → CommentEntry → CommentEntry
edited now hash e = record e {
  body_hash = hash;
  status = seen;
  seen_at = now;
  enqueued_at = none;
  replied_at = none;
  reply_comment_id = none;
}

-- The entry that is returned has no body text.
unfoldable pub reingest_comment :
    (String → String) → ℕ → String → String → Ledger → Ledger × Option CommentEntry
unfolding update
reingest_comment digest now id body d = elim (lookup id d) [
  | none ↦ (d, none)
  | some e ↦ if e.body_hash == digest body then (d, none) else (
    update id (edited now (digest body)) d,
    some (record (edited now (digest body) e) { body_text = none }),
  )
]

unfoldable pub is_comment_seen : String → Ledger → Bool
is_comment_seen id d = contains id d

unfoldable pub mark_enqueued : ℕ → String → Ledger → Ledger
unfolding update
mark_enqueued now id = update id (λ e. record e { status = enqueued; enqueued_at = some now })

unfoldable pub mark_replied : ℕ → String → String → Ledger → Ledger
unfolding update
mark_replied now id reply =
    update id
      (λ e. record e { status = replied; replied_at = some now; reply_comment_id = some reply })

unfoldable pub reset_to_seen : String → Ledger → Ledger
unfolding update
reset_to_seen id = update id (λ e. record e { status = seen; enqueued_at = none })

abbrev pub is_done : CommentStatus → Bool
is_done replied = true
is_done own = true
is_done _ = false

-- The second DELETE of `purge_stale`: completed comments first seen longer ago than `ttl`.
abbrev pub is_stale : ℕ → ℕ → CommentEntry → Bool
is_stale now ttl e = is_done e.status && ltb (e.seen_at + ttl) now

unfoldable pub purge_comments : ℕ → ℕ → Ledger → Ledger
purge_comments now ttl d = keep (λ r. not (is_stale now ttl r.1)) d
