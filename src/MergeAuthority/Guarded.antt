-- ===== src/MergeAuthority/Guarded.antt =====
-- How `_merge` of city/review_governance/merge_authority.py ends.
use agent_city.Prelude.{◌+◌, String}
use agent_city.Prelude.Key.{text_key}
use agent_city.MergeAuthority.{Authority, Evaluation, Outside, World}
use agent_city.MergeAuthority.Allowed.{AtMostOne, reservation_at}
use agent_city.MergeAuthority.Rules.{Commands}

module _ (a : Authority) (o : Outside) (e : Evaluation) (actor reason base : String)
    (start : World) where
  L : Commands → Type 0
  L = AtMostOne a o e actor reason start

  abbrev K : World → Type 0
  K w = L w.runs

  -- The worlds after the first question, the first look at the clock, and the reservation.
  asked : World
  asked = record start { resolved = start.resolved + 1; ticks = start.ticks + 1 }

  reserved_at : World
  unfolding asked
  reserved_at = record asked { file = (reservation_at o e actor reason start).0 }
