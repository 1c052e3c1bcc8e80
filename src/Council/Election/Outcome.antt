-- ===== src/Council/Election/Outcome.antt =====
-- What an election does to the council: who is seated, that it is deterministic, and when the next
-- one is due.
use mathlib.Core.List.{Perm, Nodup}
use agent_city.Prelude.{
  ℕ, zero, suc, ◌+◌, String, ◌≡◌, false, refl, ap, ◌∙◌, Option, none, some, List, [], ◌∷◌, ◌++◌,
  Bool, true, arith, leb, ltb, eqb, not, ◌<◌, ◌⊎◌, inl, inr, Bool-cases, ltb→lt, keep, length, take,
  min, All, All-map, All-take, Ordered, if◌then◌else◌,
}
use agent_city.Prelude.Dict.{lookup}
use agent_city.Prelude.Key.{number_key}
use agent_city.Prelude.Int.{pos, negsuc, pos_part, -ℤ_parts}
use agent_city.Prelude.Texts.{text_le}
use agent_city.Council.{Council, election_due}
use agent_city.Council.Election.{
  Candidate, is_eligible, seat_from, ranking, run_election, ranks_before,
}
use agent_city.Council.Election.Ranking.{Before, names, sort-Ordered, sort-perm, ranking-Perm}

-- Who is left when the first `n` are taken.
drop : ℕ → List Candidate → List Candidate
drop zero cs = cs
drop (suc n) [] = []
drop (suc n) (c ∷ cs) = drop n cs

take-drop : (n : ℕ) (cs : List Candidate) → take n cs ++ drop n cs ≡ cs
unfolding drop
take-drop zero cs = refl
take-drop (suc n) [] = refl
take-drop (suc n) (c ∷ cs) = ap (◌∷◌ c) (take-drop n cs)

All-drop : (P : Candidate → Type 0) (n : ℕ) (cs : List Candidate) → All P cs → All P (drop n cs)
unfolding drop
All-drop P zero cs h = h
All-drop P (suc n) [] h = tt
All-drop P (suc n) (c ∷ cs) h = All-drop P n cs h.1

take-Before-drop :
    (n : ℕ) (cs : List Candidate)
    → Ordered Before cs
    → All (λ w. All (Before w) (drop n cs)) (take n cs)
unfolding drop
take-Before-drop zero cs h = tt
take-Before-drop (suc n) [] h = tt
take-Before-drop (suc n) (c ∷ cs) h = (All-drop (Before c) n cs h.0, take-Before-drop n cs h.1)

length-take-drop :
    (n : ℕ) (cs : List Candidate)
    → length (take n cs) ≡ min n (length (take n cs) + length (drop n cs))
unfolding drop
length-take-drop zero cs = omega arith
length-take-drop (suc n) [] = omega arith
length-take-drop (suc n) (c ∷ cs) = omega (arith, length-take-drop n cs)

Ordered-take : (n : ℕ) (cs : List Candidate) → Ordered Before cs → Ordered Before (take n cs)
Ordered-take zero cs h = tt
Ordered-take (suc n) [] h = tt
Ordered-take (suc n) (c ∷ cs) h = (All-take (Before c) n cs h.0, Ordered-take n cs h.1)

-- The score of a candidate: the one that is given, or the prana.
abbrev pub points : Candidate → ℕ
points c = elim c.rank_score [ none ↦ pos_part c.prana | some s ↦ s ]

-- A higher score, or the same and a name that is not later.
abbrev pub Outranks : Candidate → Candidate → Type 0
Outranks a b = (points b < points a) ⊎ ((points a ≡ points b) × (text_le a.name b.name ≡ true))

Before→Outranks : (a b : Candidate) → Before a b → Outranks a b
unfolding ranks_before
Before→Outranks a b h = elim (Bool-cases (ltb (points b) (points a))) [
  | inl more ↦ inl (ltb→lt (points b) (points a) more)
  | inr less ↦ inr (ground (arith, h, less), ground (arith, h, less))
]

Ordered-Outranks : (cs : List Candidate) → Ordered Before cs → Ordered Outranks cs
Ordered-Outranks [] h = tt
Ordered-Outranks (c ∷ cs) h =
    (All-map (Outranks c) cs (Before→Outranks c) h.0, Ordered-Outranks cs h.1)

abbrev pub has_prana : Candidate → Bool
has_prana c = elim c.prana [ pos n ↦ not (eqb n 0) | negsuc n ↦ false ]

keep-has_prana : (cs : List Candidate) → keep is_eligible cs ≡ keep has_prana cs
unfolding keep
keep-has_prana [] = refl
keep-has_prana (c ∷ cs) = ground (arith, keep-has_prana cs)

-- The name of the candidate in this place, counted from 0.
unfoldable pub name_at : ℕ → List Candidate → Option String
name_at i [] = none
name_at zero (c ∷ cs) = some c.name
name_at (suc i) (c ∷ cs) = name_at i cs

lookup-seat_from : (i j : ℕ) (cs : List Candidate) → lookup (j + i) (seat_from j cs) ≡ name_at i cs
unfolding lookup seat_from name_at
lookup-seat_from i j [] = refl
lookup-seat_from zero j (c ∷ cs) = ground arith
lookup-seat_from (suc i) j (c ∷ cs) =
    let same : lookup (j + suc i) (seat_from (j + 1) cs)
        ≡ lookup (j + 1 + i) (seat_from (j + 1) cs) =
      ap (λ k. lookup k (seat_from (j + 1) cs)) (omega arith) in
    ground (arith, same, lookup-seat_from i (j + 1) cs)

lookup-seats : (i : ℕ) (cs : List Candidate) → lookup i (seat_from 0 cs) ≡ name_at i cs
lookup-seats i cs =
    let same : lookup i (seat_from 0 cs) ≡ lookup (0 + i) (seat_from 0 cs) =
      ap (λ k. lookup k (seat_from 0 cs)) (omega arith) in
    same ∙ lookup-seat_from i 0 cs

-- An election divides the candidates with prana into winners and losers: the winners hold the seats from 0
-- on in order of rank, there are six of them or as many as there are candidates, each ranks before the
-- winners of later seats and before each loser, by a higher score or else by name, the mayor is the winner
-- of seat 0, and the council has the heartbeat of the election.
pub run_election_seats :
    (cs : List Candidate) (h : ℕ) (c : Council)
    → (winners : List Candidate) × (losers : List Candidate) × Perm
        (winners ++ losers)
        (keep has_prana cs)
      × ((seat : ℕ) → lookup seat (run_election cs h c).0.seats ≡ name_at seat winners)
      × (length winners ≡ min 6 (length winners + length losers))
      × Ordered Outranks winners
      × All (λ w. All (Outranks w) losers) winners
      × ((run_election cs h c).0.elected_mayor ≡ name_at 0 winners)
      × ((run_election cs h c).0.last_election_heartbeat ≡ pos h)
unfolding run_election
run_election_seats cs h c =
    let r = ranking cs in
    let ranked : Ordered Before r = unfold ranking in sort-Ordered (keep is_eligible cs) in
    (
      take 6 r,
      drop 6 r,
      rw (take-drop, ← keep-has_prana cs) (unfold ranking in sort-perm (keep is_eligible cs)),
      λ seat. lookup-seats seat (take 6 r),
      length-take-drop 6 r,
      Ordered-Outranks (take 6 r) (Ordered-take 6 r ranked),
      All-map (λ w. All (Outranks w) (drop 6 r)) (take 6 r)
          (λ w q. All-map (Outranks w) (drop 6 r) (Before→Outranks w) q)
          (take-Before-drop 6 r ranked),
      lookup-seats 0 (take 6 r),
      refl,
    )

-- The same candidates in another order, no two of one name, give the same council and the same result
-- of the election.
pub run_election_comm :
    (cs ds : List Candidate) (h : ℕ) (c : Council)
    → Perm cs ds
    → Nodup (names cs)
    → run_election cs h c ≡ run_election ds h c
unfolding run_election
run_election_comm cs ds h c p d = rw (ranking-Perm p d)

abbrev pub is_empty : List Candidate → Bool
is_empty [] = true
is_empty _ = false

due_after :
    (r : List Candidate) (h g : ℕ) (c : Council)
    → election_due (record c { seats = seat_from 0 (take 6 r); last_election_heartbeat = pos h }) g
      ≡ (if is_empty r then true else leb (h + 108) g)
unfolding election_due seat_from
due_after [] h g c = refl
due_after (w ∷ r) h g c = ground (arith, -ℤ_parts (pos g) (pos h))

-- After an election in which someone with prana stood the next one is due exactly from 108 heartbeats
-- on, and after one in which nobody did it is due at once.
pub election_due-run_election :
    (cs : List Candidate) (h g : ℕ) (c : Council)
    → election_due (run_election cs h c).0 g
      ≡ (if is_empty (ranking cs) then true else leb (h + 108) g)
unfolding run_election election_due
election_due-run_election cs h g c =
    due_after (ranking cs) h g
      (record c { elected_mayor = lookup 0 (seat_from 0 (take 6 (ranking cs))) })
