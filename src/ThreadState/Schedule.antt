-- ===== src/ThreadState/Schedule.antt =====
-- When a thread cools and when it is archived, once it was commented on and nothing else happens.
use mathlib.Core.Path.{subst}
use agent_city.Prelude.{
  ℕ, zero, suc, ◌+◌, ◌-◌, ◌<◌, ◌≡◌, refl, ◌∙◌, String, Bool, true, ◌&&◌, none, some, [], ◌∷◌, ◌++◌,
  ltb, eqb, eqb_iff, if◌then◌else◌, arith, Bool-cases, Option-cases, inl, inr,
}
use agent_city.Prelude.Key.{number_key, ==-refl}
use agent_city.Prelude.Dict.{lookup}
use agent_city.ThreadState.{
  Thread, Board, ThreadStatus, active, waiting, cooling, archived, full, is_archived, decay_row,
  decay_rows, decay_all, new_thread, commented, update, record_human_comment,
}

-- So many heartbeats, and nothing else.
unfoldable pub idle : ℕ → Board → Board
idle zero d = d
idle (suc k) d = (decay_all (idle k d)).0

decay_turn : Thread → Thread
decay_turn t = if is_archived t.status then t else decay_row t

turns : ℕ → Thread → Thread
turns zero t = t
turns (suc k) t = decay_turn (turns k t)

lookup-decay_rows :
    (n : ℕ) (d : Board) (t : Thread)
    → lookup n d ≡ some t
    → lookup n (decay_rows d) ≡ some (decay_turn t)
unfolding lookup decay_rows decay_turn
lookup-decay_rows n [] t h = ground arith
lookup-decay_rows n ((m, q) ∷ d) t h = ground (arith, lookup-decay_rows n d t)

lookup-idle :
    (k n : ℕ) (d : Board) (t : Thread)
    → lookup n d ≡ some t
    → lookup n (idle k d) ≡ some (turns k t)
unfolding idle turns decay_all
lookup-idle zero n d t h = h
lookup-idle (suc k) n d t h = lookup-decay_rows n (idle k d) (turns k t) (lookup-idle k n d t h)

-- The status that a thread has so many heartbeats after a comment.
abbrev pub scheduled : ℕ → ThreadStatus
scheduled k = if ltb k 15 then active else if ltb k 36 then cooling else archived

number_of : ThreadStatus → ℕ
number_of active = 0
number_of waiting = 1
number_of cooling = 2
number_of archived = 3

number_of-injective : (s t : ThreadStatus) → number_of s ≡ number_of t → s ≡ t
unfolding number_of
number_of-injective s t h = ground arith

abbrev fresh : Thread → Thread
fresh t = record t { energy = full; status = active }

agrees : Thread → ℕ → Bool
unfolding turns decay_turn number_of
agrees t zero = true
agrees t (suc k) =
    eqb (number_of (turns k (fresh t)).status) (number_of (scheduled k)) && agrees t k

agrees_37 : (t : Thread) → agrees t 37 ≡ true
unfolding agrees turns decay_turn decay_row number_of
agrees_37 t = refl

agrees-at :
    (t : Thread) (n k : ℕ) → k < n → agrees t n ≡ true → (turns k (fresh t)).status ≡ scheduled k
unfolding agrees
agrees-at t zero k less h = absurd (omega arith)
agrees-at t (suc n) k less h = elim (Bool-cases (eqb k n)) [
  | inl here ↦ number_of-injective _ _ (ground (arith, h, (eqb_iff k n).0 here))
  | inr other ↦ agrees-at t n k (ground (arith, other, less)) (ground (arith, h))
]

turns-archived : (t : Thread) (j k : ℕ) → 36 + j ≡ k → (turns k (fresh t)).status ≡ archived
unfolding turns decay_turn
turns-archived t zero k e =
    let p : 36 ≡ k = omega arith in
    subst (λ i. (turns i (fresh t)).status ≡ archived) p
      (agrees-at t 37 36 (omega arith) (agrees_37 t))
turns-archived t (suc j) k e =
    let p : suc (36 + j) ≡ k = omega arith in
    subst (λ i. (turns i (fresh t)).status ≡ archived) p
      (ground (arith, turns-archived t j (36 + j) refl))

turns-scheduled : (t : Thread) (k : ℕ) → (turns k (fresh t)).status ≡ scheduled k
turns-scheduled t k = elim (Bool-cases (ltb k 36)) [
  | inl early ↦ agrees-at t 37 k (ground (arith, early)) (agrees_37 t)
  | inr late ↦ turns-archived t (k - 36) k (ground (arith, late)) ∙ ground (arith, late)
]

lookup-new :
    (n : ℕ) (t : Thread) (d : Board) → lookup n d ≡ none → lookup n (d ++ (n, t) ∷ []) ≡ some t
unfolding lookup
lookup-new n t [] h = ground (arith, ==-refl n)
lookup-new n t ((m, q) ∷ d) h = ground (arith, lookup-new n t d)

lookup-update :
    (n : ℕ) (f : Thread → Thread) (d : Board) (t : Thread)
    → lookup n d ≡ some t
    → lookup n (update n f d) ≡ some (f t)
unfolding lookup update
lookup-update n f [] t h = ground arith
lookup-update n f ((m, q) ∷ d) t h = ground (arith, lookup-update n f d t)

-- After a human comment on it, a thread is in the table, full of energy and active.
lookup-comment :
    (now n : ℕ) (author title category : String) (d : Board)
    → (t : Thread) × (lookup n (record_human_comment now n author title category d)
        ≡ some (fresh t))
unfolding record_human_comment new_thread commented
lookup-comment now n author title category d = elim (Option-cases (lookup n d)) [
  | inl missing ↦
      let t = new_thread now author title category in
      (t, ground (arith, missing, lookup-new n (fresh t) d missing))
  | inr (q, known) ↦
      let t = commented now author title category q in
      (t, ground (arith, known, lookup-update n (commented now author title category) d q known))
]

-- A thread that a human comments on is active for the next 14 heartbeats, if nothing else happens, is
-- cooling from the 15th and archived from the 36th on.
pub comment-scheduled :
    (k now n : ℕ) (author title category : String) (d : Board)
    → (t : Thread) × (lookup n (idle k (record_human_comment now n author title category d))
        ≡ some t)
      × (t.status ≡ scheduled k)
comment-scheduled k now n author title category d =
    let (t, there) = lookup-comment now n author title category d in
    (turns k (fresh t), lookup-idle k n _ (fresh t) there, turns-scheduled t k)
