-- ===== src/CommentLedger/Kept.antt =====
-- The ledger forgets no comment, and takes each of them once.
use mathlib.Core.Path.{subst₂}
use mathlib.Core.Option.{some-injective}
use agent_city.Prelude.{
  ℕ, ◌+◌, ◌≤◌, ◌≡◌, refl, String, Bool, true, not, keep, sym, false, ◌&&◌, none, some, [], ◌∷◌,
  ◌++◌, ltb, if◌then◌else◌, arith, eq_iff, Option-cases, Bool-cases, inl, inr,
}
use agent_city.Prelude.Key.{◌==◌, text_key, ==-refl}
use agent_city.Prelude.Dict.{lookup}
use agent_city.CommentLedger.{
  CommentEntry, Ledger, Comment, nothing, type_error, update, is_unreplied, stuck_after, new_entry,
  seen_again, edited, seen, ingest_comment, reingest_comment, mark_enqueued, mark_replied,
  reset_to_seen, is_stale, purge_comments,
}

lookup-update :
    (k id : String) (f : CommentEntry → CommentEntry) (d : Ledger) (e : CommentEntry)
    → lookup id d ≡ some e
    → lookup id (update k f d) ≡ some (if k == id then f e else e)
unfolding lookup update
lookup-update k id f [] e h = ground arith
lookup-update k id f ((j, q) ∷ d) e h =
    ground (arith, eq_iff j id, eq_iff j k, eq_iff k id, lookup-update k id f d e)

lookup-later :
    (id k : String) (v : CommentEntry) (d : Ledger) (e : CommentEntry)
    → lookup id d ≡ some e
    → lookup id (d ++ (k, v) ∷ []) ≡ some e
unfolding lookup
lookup-later id k v [] e h = ground arith
lookup-later id k v ((j, q) ∷ d) e h = ground (arith, lookup-later id k v d e)

lookup-last :
    (k : String) (v : CommentEntry) (d : Ledger)
    → lookup k d ≡ none
    → lookup k (d ++ (k, v) ∷ []) ≡ some v
unfolding lookup
lookup-last k v [] h = ground (arith, ==-refl k)
lookup-last k v ((j, q) ∷ d) h = ground (arith, lookup-last k v d)

-- One call of an operation on the ledger.
pub data Step (d : Ledger) : Ledger → Type 0 where
  ingest :
      (digest : String → String) (now : ℕ) (c : Comment) → Step d (ingest_comment digest now c d).0
  reingest :
      (digest : String → String) (now : ℕ) (id body : String)
      → Step d (reingest_comment digest now id body d).0
  enqueue : (now : ℕ) (id : String) → Step d (mark_enqueued now id d)
  reply : (now : ℕ) (id by : String) → Step d (mark_replied now id by d)
  reset : (id : String) → Step d (reset_to_seen id d)
  purge : (now ttl : ℕ) → Step d (purge_comments now ttl d)

-- Only `purge_stale` takes a comment off the ledger, and only one that is done and old.
abbrev pub takes_off : {d d' : Ledger} → Step d d' → CommentEntry → Bool
takes_off (purge now ttl) e = is_stale now ttl e
takes_off _ e = false

-- The same comment: its thread, its author and whether the system wrote it.
pub record SameComment (e e' : CommentEntry) : Type 0 where
  pub thread : e'.discussion_number ≡ e.discussion_number
  pub author : e'.author ≡ e.author
  pub is_own : e'.is_own ≡ e.is_own

abbrev IsStill : String → CommentEntry → Ledger → Type 0
IsStill id e d = (e' : CommentEntry) × (lookup id d ≡ some e') × SameComment e e'

update-IsStill :
    (k id : String) (f : CommentEntry → CommentEntry) (d : Ledger) (e : CommentEntry)
    → ((q : CommentEntry) → SameComment q (f q))
    → lookup id d ≡ some e
    → IsStill id e (update k f d)
update-IsStill k id f d e same h = elim (Bool-cases (k == id)) [
  | inl here ↦ (f e, ground (arith, here, lookup-update k id f d e h), same e)
  | inr other ↦ (
    e,
    ground (arith, other, lookup-update k id f d e h),
    record { thread = refl; author = refl; is_own = refl },
  )
]

lookup-keep :
    (test : String × CommentEntry → Bool) (id : String) (d : Ledger) (e : CommentEntry)
    → test (id, e) ≡ true
    → lookup id d ≡ some e
    → lookup id (keep test d) ≡ some e
unfolding lookup keep
lookup-keep test id [] e t h = ground arith
lookup-keep test id ((j, q) ∷ d) e t h = elim (Bool-cases (j == id)) [
  | inl here ↦
      let kept : test (j, q) ≡ true =
        subst₂ (λ a b. test (a, b) ≡ true) (sym ((eq_iff j id).0 here))
          (sym (some-injective q e (rw here at h))) t in
      ground (arith, here, kept, h)
  | inr other ↦ ground (arith, other, lookup-keep test id d e t (rw other at h))
]

-- Whatever the operation, a comment on the ledger stays on it, with its thread, its author and its
-- source, unless the operation is purge_stale and the comment is one of the system's own or has been
-- replied to, and was seen longer ago than the time it is kept for.
pub Step-SameComment :
    {d d' : Ledger} (step : Step d d') (id : String) (e : CommentEntry)
    → lookup id d ≡ some e
    → takes_off step e ≡ false
    → (e' : CommentEntry) × (lookup id d' ≡ some e') × SameComment e e'
unfolding ingest_comment reingest_comment mark_enqueued mark_replied reset_to_seen purge_comments
Step-SameComment {d} (ingest digest now c) id e h stays =
    elim (Option-cases (lookup c.comment_id d)) [
      | inl fresh ↦ (
        e,
        ground (arith, lookup-later id c.comment_id (new_entry digest now c) d e h),
        record { thread = refl; author = refl; is_own = refl },
      )
      | inr (q, known) ↦
          elim (Bool-cases (is_unreplied q.status && ltb (q.seen_at + stuck_after) now)) [
            | inl stuck ↦
                let (e', there, same) =
                  update-IsStill c.comment_id id (seen_again now) d e
                    (λ x. record { thread = refl; author = refl; is_own = refl }) h in
                (e', ground (arith, there), same)
            | inr fine ↦ (e, ground arith, record { thread = refl; author = refl; is_own = refl })
          ]
    ]
Step-SameComment {d} (reingest digest now k body) id e h stays = elim (Option-cases (lookup k d)) [
  | inl missing ↦ (e, ground arith, record { thread = refl; author = refl; is_own = refl })
  | inr (q, known) ↦
      let (e', there, same) =
        update-IsStill k id (edited now (digest body)) d e
          (λ x. record { thread = refl; author = refl; is_own = refl }) h in
      elim (Bool-cases (q.body_hash == digest body)) [
        | inl unchanged ↦ (e, ground arith, record { thread = refl; author = refl; is_own = refl })
        | inr changed ↦ (e', ground (arith, there), same)
      ]
]
Step-SameComment {d} (enqueue now k) id e h stays =
    update-IsStill k id _ d e (λ x. record { thread = refl; author = refl; is_own = refl }) h
Step-SameComment {d} (reply now k by) id e h stays =
    update-IsStill k id _ d e (λ x. record { thread = refl; author = refl; is_own = refl }) h
Step-SameComment {d} (reset k) id e h stays =
    update-IsStill k id _ d e (λ x. record { thread = refl; author = refl; is_own = refl }) h
Step-SameComment {d} (purge now ttl) id e h stays = (
  e,
  lookup-keep (λ r. not (is_stale now ttl r.1)) id d e (ground (arith, stays)) h,
  record { thread = refl; author = refl; is_own = refl },
)

-- A comment that is new is recorded; the same comment again within 900 seconds gives nothing and
-- changes nothing; and again after that, from outside and without a reply, it is written down as seen
-- at that time, while the call raises a TypeError.
pub ingest-ingest :
    (digest : String → String) (now soon late : ℕ) (c : Comment) (d : Ledger)
    → lookup c.comment_id d ≡ none
    → c.is_own ≡ false
    → soon ≤ now + stuck_after
    → ltb (now + stuck_after) late ≡ true
    → let d' = (ingest_comment digest now c d).0 in
      (lookup c.comment_id d' ≡ some (new_entry digest now c))
      × (ingest_comment digest soon c d' ≡ (d', nothing))
      × ((ingest_comment digest late c d').1 ≡ type_error)
      × (lookup c.comment_id (ingest_comment digest late c d').0
          ≡ some (record (new_entry digest now c) { status = seen; seen_at = late }))
unfolding ingest_comment new_entry
ingest-ingest digest now soon late c d fresh outside near far =
    let d' = d ++ (c.comment_id, new_entry digest now c) ∷ [] in
    let there = lookup-last c.comment_id (new_entry digest now c) d fresh in
    let again =
      lookup-update c.comment_id c.comment_id (seen_again late) d' (new_entry digest now c) there in
    (
      ground (arith, there),
      ground (arith, there),
      ground (arith, there),
      ground (arith, there, again, ==-refl c.comment_id),
    )
