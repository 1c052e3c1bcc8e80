-- ===== src/Tests/CommentLedger.antt =====
-- One comment on an empty ledger.
use agent_city.Prelude.{◌≡◌, refl, String, false, none, some, [], arith}
use agent_city.Prelude.Key.{text_key}
use agent_city.Prelude.Dict.{lookup}
use agent_city.CommentLedger.{
  Comment, CommentEntry, Ledger, new_entry, ingest_comment, nothing, type_error, seen, mark_replied,
}
use agent_city.CommentLedger.Kept.{SameComment, reply, Step-SameComment, ingest-ingest}

abbrev digest : String → String
digest body = body

abbrev hello : Comment
hello = record {
  comment_id = "c1";
  discussion_number = 7;
  author = "ada";
  body = "hello";
  is_own = false;
}

abbrev ledger : Ledger
ledger = (ingest_comment digest 1000 hello []).0

abbrev entry : CommentEntry
entry = new_entry digest 1000 hello

on_it : lookup "c1" ledger ≡ some entry
unfolding lookup ingest_comment
on_it = refl

Step-SameComment_example :
    (e' : CommentEntry) × (lookup "c1" (mark_replied 2000 "c1" "c2" ledger) ≡ some e')
    × SameComment entry e'
Step-SameComment_example = Step-SameComment (reply 2000 "c1" "c2") "c1" entry on_it refl

abbrev bare : Ledger
bare = []

empty_at : lookup "c1" bare ≡ none
unfolding lookup
empty_at = refl

ingest-ingest_example :
    (lookup "c1" ledger ≡ some entry)
    × (ingest_comment digest 5000 hello ledger ≡ (ledger, nothing))
    × ((ingest_comment digest 1000000 hello ledger).1 ≡ type_error)
    × (lookup "c1" (ingest_comment digest 1000000 hello ledger).0
        ≡ some (record entry { status = seen; seen_at = 1000000 }))
ingest-ingest_example =
    ingest-ingest digest 1000 5000 1000000 hello [] empty_at refl (omega arith) refl
