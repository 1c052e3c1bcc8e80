-- ===== src/Council/Steps/Valid.antt =====
-- The invariant of the council, and that every step preserves it.
use agent_city.Prelude.{
  ℕ, ◌+◌, ◌<◌, ◌≡◌, ◌≢◌, refl, sym, ap, ◌∙◌, String, Bool, true, false, Option, none, some, arith,
  List, [], ◌∷◌, ◌++◌, All, Ordered, All-append, Bool-cases, Option-cases, inl, inr, eq_iff,
  if◌then◌else◌,
}
use agent_city.Prelude.Dict.{Dict, lookup}
use agent_city.Prelude.Json.{Json}
use agent_city.Prelude.Key.{◌==◌, text_key}
use agent_city.Prelude.Texts.{zero_padded-injective}
use mathlib.Core.Path.{subst, subst₂}
use mathlib.Core.Option.{none-ne-some, some-injective}
use text.Mathlib.TextLemmas.{append_cancel_left}
use agent_city.Council.{Council, Proposal, VoteRecord, is_open, get_proposal, fresh}
use agent_city.Council.Election.{Candidate, run_election}
use agent_city.Council.Market.{
  apply_marketplace_action, returns, IsCapped, market_frame, market-IsCapped,
}
use agent_city.Council.Proposals.{
  TallyData, Verifier, Ballot, Router, Request, vote, tally, mark_executed, expire_proposals,
  decide_tally, admits, has_voted, propose, new_proposal, proposal_id, vote_record,
}
use agent_city.Council.Proposals.Fates.{
  expire_one, execute_one, tally_one, vote_one, map_option, is_some, get-expire, get-execute,
  get-tally, get-vote, get-propose,
}
use agent_city.Council.Steps.{
  Step, elect, submit, cast, count, execute, expire, trade, Reach, here, next,
}

abbrev pub OneVoteEach : List VoteRecord → Type 0
OneVoteEach = Ordered (λ v w. v.voter ≢ w.voter)

-- A proposal stored under `k`, where `n` is the number of the next one.
pub record IsEntry (n : ℕ) (k : String) (p : Proposal) : Type 0 where
  pub keyed : p.id ≡ k
  pub numbered : (m : ℕ) × (m < n) × (k ≡ proposal_id m)
  pub once : OneVoteEach p.votes
  pub unsealed : is_open p.status ≡ true → p.result_hash ≡ ""

abbrev pub IsEntries : Council → Type 0
IsEntries c =
    (k : String) (p : Proposal) → get_proposal c k ≡ some p → IsEntry c.next_proposal_num k p

pub record IsValid (c : Council) : Type 0 where
  pub entries : IsEntries c
  pub capped : IsCapped c

proposal_id-injective : (m n : ℕ) → proposal_id m ≡ proposal_id n → m ≡ n
unfolding proposal_id
proposal_id-injective m n p = zero_padded-injective 4 m n (append_cancel_left "GOV-" _ _ p)

-- The next id is not in use, so a new proposal replaces none.
pub fresh_id : (c : Council) → IsEntries c → get_proposal c (proposal_id c.next_proposal_num) ≡ none
fresh_id c v = elim (Option-cases (get_proposal c (proposal_id c.next_proposal_num))) [
  | inl missing ↦ missing
  | inr (p, found) ↦
      let (m, below, e) = (v _ p found).numbered in
      absurd (omega (arith, proposal_id-injective c.next_proposal_num m e))
]

not_among :
    (name : String) (votes : List VoteRecord)
    → has_voted name votes ≡ false
    → All (λ v. v.voter ≢ name) votes
unfolding has_voted
not_among name [] h = tt
not_among name (v ∷ votes) h =
    (λ e. ground (arith, eq_iff v.voter name), not_among name votes (ground arith))

once-append :
    (votes : List VoteRecord) (w : VoteRecord)
    → OneVoteEach votes
    → All (λ v. v.voter ≢ w.voter) votes
    → OneVoteEach (votes ++ w ∷ [])
once-append [] w h new = (tt, tt)
once-append (v ∷ votes) w h new = (
  All-append (λ u. v.voter ≢ u.voter) votes (w ∷ []) h.0 (new.0, tt),
  once-append votes w h.1 new.1,
)

module _ (n : ℕ) (k : String) (p : Proposal) where
  expire_one-IsEntry : (h : ℕ) → IsEntry n k p → IsEntry n k (expire_one h p)
  expire_one-IsEntry h e = record {
    keyed = ground arith;
    numbered = e.numbered;
    once = ground arith;
    unsealed = ground arith;
  }

  execute_one-IsEntry : IsEntry n k p → IsEntry n k (execute_one p)
  execute_one-IsEntry e = record {
    keyed = ground arith;
    numbered = e.numbered;
    once = ground arith;
    unsealed = ground arith;
  }

  tally_one-IsEntry :
      (seal : TallyData → String) (c : Council) → IsEntry n k p → IsEntry n k (tally_one seal c p)
  unfolding decide_tally
  tally_one-IsEntry seal c e = record {
    keyed = ground arith;
    numbered = e.numbered;
    once = ground arith;
    unsealed = ground arith;
  }

  vote_one-IsEntry :
      (service : Option Verifier) (c : Council) (b : Ballot)
      → IsEntry n k p
      → IsEntry n k (vote_one service c b p)
  unfolding admits
  vote_one-IsEntry service c b e = record {
    keyed = ground arith;
    numbered = e.numbered;
    once = ground (arith, once-append p.votes (vote_record b) e.once, not_among b.voter p.votes);
    unsealed = ground arith;
  }

new_proposal-IsEntry :
    (n : ℕ) (route : Router) (r : Request)
    → IsEntry (n + 1) (proposal_id n) (new_proposal route n r)
unfolding new_proposal
new_proposal-IsEntry n route r = record {
  keyed = refl;
  numbered = (n, omega arith, refl);
  once = tt;
  unsealed = λ h. refl;
}

later-IsEntry : (n : ℕ) (k : String) (p : Proposal) → IsEntry n k p → IsEntry (n + 1) k p
later-IsEntry n k p e =
    let (m, below, named) = e.numbered in
    record {
      keyed = e.keyed;
      numbered = (m, omega arith, named);
      once = e.once;
      unsealed = e.unsealed;
    }

-- What an operation other than `propose` leaves alone.
record Keeps (c c' : Council) : Type 0 where
  number : c'.next_proposal_num ≡ c.next_proposal_num
  commission : c'.commission_override ≡ c.commission_override

module _ (c : Council) where
  Keeps-run_election : (cs : List Candidate) (h : ℕ) → Keeps c (run_election cs h c).0
  unfolding run_election
  Keeps-run_election cs h = record { number = refl; commission = refl }

  Keeps-vote : (service : Option Verifier) (b : Ballot) → Keeps c (vote service b c).0
  unfolding vote
  Keeps-vote service b = record { number = ground arith; commission = ground arith }

  Keeps-tally : (seal : TallyData → String) (k : String) → Keeps c (tally seal k c).0
  unfolding tally
  Keeps-tally seal k = record { number = ground arith; commission = ground arith }

  Keeps-execute : (k : String) → Keeps c (mark_executed k c)
  unfolding mark_executed
  Keeps-execute k = record { number = ground arith; commission = ground arith }

  Keeps-expire : (h : ℕ) → Keeps c (expire_proposals h c).0
  unfolding expire_proposals
  Keeps-expire h = record { number = refl; commission = refl }

modified :
    (n : ℕ) (k : String) (f : Proposal → Proposal)
    → ((p : Proposal) → IsEntry n k p → IsEntry n k (f p))
    → (at_key : Bool) (o o' : Option Proposal) → o' ≡ (if at_key then map_option f o else o)
    → ((p : Proposal) → o ≡ some p → IsEntry n k p)
    → (p : Proposal) → o' ≡ some p
    → IsEntry n k p
modified n k f keep true none o' e all p found = absurd (none-ne-some p (sym e ∙ found))
modified n k f keep true (some q) o' e all p found =
    subst (IsEntry n k) (some-injective (f q) p (sym e ∙ found)) (keep q (all q refl))
modified n k f keep false o o' e all p found = all p (sym e ∙ found)

-- An operation that changes at most one proposal, or each by itself, by a function that keeps an
-- entry an entry.
Keeps-IsValid :
    (c c' : Council) (f : Proposal → Proposal)
    → Keeps c c'
    → ((k : String) (p : Proposal)
        → IsEntry c.next_proposal_num k p
        → IsEntry c.next_proposal_num k (f p))
    → ((k : String)
        → (b : Bool) × (get_proposal c' k
            ≡ (if b then map_option f (get_proposal c k) else get_proposal c k)))
    → IsValid c
    → IsValid c'
Keeps-IsValid c c' f same keep fate v = record {
  entries = λ k p found. rw same.number (
      modified c.next_proposal_num k f (keep k) (fate k).0 (get_proposal c k) (get_proposal c' k)
        (fate k).1 (v.entries k) p found);
  capped = λ rate set. v.capped rate (sym same.commission ∙ set);
}

trade-IsValid :
    (action : Dict String Json) (done : Bool) (c c' : Council)
    → apply_marketplace_action action c ≡ returns done c'
    → IsValid c
    → IsValid c'
unfolding get_proposal
trade-IsValid action done c c' h v =
    let frame = market_frame action done c c' h in
    record {
      entries = λ k p found.
          subst (λ n. IsEntry n k p) (sym (frame.3))
            (v.entries k p (ap (lookup k) (sym (frame.2)) ∙ found));
      capped = market-IsCapped action done c c' h v.capped;
    }

propose_frame :
    (route : Router) (r : Request) (c : Council)
    → ((propose route r c).0.next_proposal_num
        ≡ (if is_some (propose route r c).1 then c.next_proposal_num + 1 else c.next_proposal_num))
      × ((propose route r c).0.commission_override ≡ c.commission_override)
unfolding propose
propose_frame route r c = ground arith

-- Where a proposal was accepted, an entry is the new one or an old one.
accepted-IsEntry :
    (n : ℕ) (k : String) (route : Router) (r : Request) (is_new : Bool) (o o' : Option Proposal)
    → (is_new ≡ true → proposal_id n ≡ k)
    → o' ≡ (if is_new then some (new_proposal route n r) else o)
    → ((p : Proposal) → o ≡ some p → IsEntry n k p)
    → (p : Proposal) → o' ≡ some p
    → IsEntry (n + 1) k p
accepted-IsEntry n k route r true o o' named e all p found =
    subst₂ (IsEntry (n + 1)) (named refl)
      (some-injective (new_proposal route n r) p (sym e ∙ found)) (new_proposal-IsEntry n route r)
accepted-IsEntry n k route r false o o' named e all p found =
    later-IsEntry n k p (all p (sym e ∙ found))

submitted-IsEntry :
    (route : Router) (r : Request) (c : Council) (k : String) (p : Proposal)
    → IsValid c
    → get_proposal (propose route r c).0 k ≡ some p
    → IsEntry (propose route r c).0.next_proposal_num k p
submitted-IsEntry route r c k p v found = elim (Bool-cases (is_some (propose route r c).1)) [
  | inl accepted ↦ rw (propose_frame route r c).0 (
      rw accepted (
        accepted-IsEntry c.next_proposal_num k route r (proposal_id c.next_proposal_num == k)
          (get_proposal c k) (get_proposal (propose route r c).0 k) (eq_iff _ k).0
          (rw accepted at (get-propose k c route r)) (v.entries k) p found))
  | inr refused ↦
      rw (propose_frame route r c).0
        (rw refused (v.entries k p (sym (rw refused at (get-propose k c route r)) ∙ found)))
]

submit-IsValid :
    (route : Router) (r : Request) (c : Council) → IsValid c → IsValid (propose route r c).0
submit-IsValid route r c v = record {
  entries = λ k p found. submitted-IsEntry route r c k p v found;
  capped = λ rate set. v.capped rate (sym (propose_frame route r c).1 ∙ set);
}

-- Every step from a valid council leads to a valid one.
pub Step-IsValid : {c c' : Council} → IsValid c → Step c c' → IsValid c'
Step-IsValid {c} v (elect cs h) =
    Keeps-IsValid c _ (λ p. p) (Keeps-run_election c cs h) (λ k p e. e)
      (λ k. (false, unfold run_election get_proposal in refl)) v
Step-IsValid {c} v (submit route r) = submit-IsValid route r c v
Step-IsValid {c} v (cast service b) =
    Keeps-IsValid c _ (vote_one service c b) (Keeps-vote c service b)
      (λ k p e. vote_one-IsEntry _ k p service c b e) (λ k. (_, get-vote k c service b)) v
Step-IsValid {c} v (count seal j) =
    Keeps-IsValid c _ (tally_one seal c) (Keeps-tally c seal j)
      (λ k p e. tally_one-IsEntry _ k p seal c e) (λ k. (_, get-tally k c seal j)) v
Step-IsValid {c} v (execute j) =
    Keeps-IsValid c _ execute_one (Keeps-execute c j) (λ k p e. execute_one-IsEntry _ k p e)
      (λ k. (_, get-execute k c j)) v
Step-IsValid {c} v (expire h) =
    Keeps-IsValid c _ (expire_one h) (Keeps-expire c h) (λ k p e. expire_one-IsEntry _ k p h e)
      (λ k. (true, get-expire h k c)) v
Step-IsValid {c} v (trade action done c' h) = trade-IsValid action done c c' h v

fresh-IsValid : IsValid fresh
unfolding get_proposal lookup
fresh-IsValid = record {
  entries = λ k p found. absurd (none-ne-some p found);
  capped = λ rate set. absurd (none-ne-some rate set);
}

-- In every council that a sequence of operations reaches from a new one, each proposal is stored under
-- its own id, whose number is below the next one; no voter has two votes on a proposal; an open
-- proposal has no seal; and a commission that is set lies between 0 and 18.
pub Reach-IsValid : {c : Council} → Reach fresh c → IsValid c
Reach-IsValid here = fresh-IsValid
Reach-IsValid (next r s) = Step-IsValid (Reach-IsValid r) s
