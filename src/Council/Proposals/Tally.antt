-- ===== src/Council/Proposals/Tally.antt =====
-- What `tally` decides, against the sums over the votes that were cast for each side.
use agent_city.Prelude.{
  ℕ, ◌+◌, ◌*◌, ◌<◌, ◌≤◌, ◌≡◌, ◌≢◌, ◌↔◌, refl, String, Bool, true, false, none, some, List, [], ◌∷◌,
  arith, if◌then◌else◌,
}
use agent_city.Prelude.Dict.{insert, lookup-insert}
use agent_city.Prelude.Key.{◌==◌, text_key, ==-refl}
use agent_city.Council.{
  Council, Proposal, VoteChoice, voted_yes, voted_no, abstain, VoteRecord, still_open, passed,
  rejected, threshold, is_mayor, get_proposal,
}
use agent_city.Council.Proposals.{TallyData, weight, count_votes, decide_tally, tally}

-- The weight that the votes give to one side: the mayor's vote counts three times.
abbrev pub same_choice : VoteChoice → VoteChoice → Bool
same_choice voted_yes voted_yes = true
same_choice voted_no voted_no = true
same_choice abstain abstain = true
same_choice _ _ = false

unfoldable pub cast_for : VoteChoice → Council → List VoteRecord → ℕ
cast_for side c [] = 0
cast_for side c (v ∷ votes) =
    (if same_choice v.choice side
      then v.prana_weight * (if is_mayor c v.voter then 3 else 1)
      else 0)
    + cast_for side c votes

count_votes-cast :
    (c : Council) (votes : List VoteRecord) (y n : ℕ)
    → count_votes c votes y n ≡ (y + cast_for voted_yes c votes, n + cast_for voted_no c votes)
unfolding count_votes cast_for weight
count_votes-cast c [] y n = ground arith
count_votes-cast c (v ∷ votes) y n = ground (
  arith,
  count_votes-cast c votes (y + weight c v) n,
  count_votes-cast c votes y (n + weight c v),
  count_votes-cast c votes y n,
)

decide-passed :
    (seal : TallyData → String) (p : Proposal) (y n : ℕ)
    → (((decide_tally seal p (y, n)).status ≡ passed) ↔ (threshold p * (y + n) < 100 * y))
      × (((decide_tally seal p (y, n)).status ≡ rejected) ↔ (100 * y ≤ threshold p * (y + n)))
unfolding decide_tally
decide-passed seal p y n = ground arith

module _ (seal : TallyData → String) (pid : String) (c : Council) (p : Proposal) where
  -- The state after a tally in which some weight was cast.
  tally-decides :
      get_proposal c pid ≡ some p
      → p.status ≡ still_open
      → cast_for voted_yes c p.votes + cast_for voted_no c p.votes ≢ 0
      → let p' = decide_tally seal p (cast_for voted_yes c p.votes, cast_for voted_no c p.votes) in
        tally seal pid c ≡ (record c { proposals = insert pid p' c.proposals }, some p')
  unfolding tally get_proposal
  tally-decides found op some_weight = ground (arith, count_votes-cast c p.votes 0 0)

  -- A tally of an open proposal, for whose two sides some weight was cast, passes it exactly if the
  -- weight for it, with the mayor counting three times, is above the threshold of its type in percent
  -- of both sides, and rejects it exactly if not; it is stored and returned with its votes unchanged,
  -- and every other proposal is unchanged.
  pub tally_decides_by_weight :
      get_proposal c pid ≡ some p
      → p.status ≡ still_open
      → cast_for voted_yes c p.votes + cast_for voted_no c p.votes ≢ 0
      → (p' : Proposal) × ((tally seal pid c).1 ≡ some p')
        × (get_proposal (tally seal pid c).0 pid ≡ some p')
        × ((p'.status ≡ passed) ↔ (
            threshold p * (cast_for voted_yes c p.votes + cast_for voted_no c p.votes)
            < 100 * cast_for voted_yes c p.votes))
        × ((p'.status ≡ rejected) ↔ (
            100 * cast_for voted_yes c p.votes
            ≤ threshold p * (cast_for voted_yes c p.votes + cast_for voted_no c p.votes)))
        × (p'.votes ≡ p.votes)
        × ((other : String)
            → (pid == other) ≡ false
            → get_proposal (tally seal pid c).0 other ≡ get_proposal c other)
  unfolding get_proposal
  tally_decides_by_weight found op cast =
      let y = cast_for voted_yes c p.votes in
      let n = cast_for voted_no c p.votes in
      let p' = decide_tally seal p (y, n) in
      let e = tally-decides found op cast in
      let sides = decide-passed seal p y n in
      (
        p',
        rw e,
        rw (e, lookup-insert, ==-refl),
        sides.0,
        sides.1,
        unfold decide_tally in refl,
        λ other ne. rw (e, lookup-insert, ne),
      )

  -- A tally changes nothing, and returns the proposal as it is, where no weight was cast for
  -- either side.
  tally_of_no_weight :
      get_proposal c pid ≡ some p
      → p.status ≡ still_open
      → cast_for voted_yes c p.votes + cast_for voted_no c p.votes ≡ 0
      → tally seal pid c ≡ (c, some p)
  unfolding tally get_proposal
  tally_of_no_weight found op none_cast = ground (arith, count_votes-cast c p.votes 0 0)

  -- Nor where the proposal is decided already.
  tally_of_closed :
      get_proposal c pid ≡ some p → p.status ≢ still_open → tally seal pid c ≡ (c, none)
  unfolding tally get_proposal
  tally_of_closed found closed = ground arith
