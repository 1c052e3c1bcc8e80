-- ===== src/ThreadState/Bounds.antt =====
-- What every row of the board keeps: an energy between nothing and full, and none left once archived.
use mathlib.Core.Path.{subst}
use agent_city.Prelude.{
  ℕ, ◌≤◌, ◌<◌, ◌≡◌, refl, sym, String, false, ◌&&◌, [], ◌∷◌, ◌++◌, ltb, arith, Option-cases,
  Bool-cases, inl, inr, All, All-append,
}
use agent_city.Prelude.Key.{◌==◌, number_key}
use agent_city.Prelude.Dict.{lookup}
use agent_city.ThreadState.{
  Thread, Board, is_archived, update, new_thread, commented, answered, shut, record_human_comment,
  record_agent_response, archive_thread, decay_row, decay_rows, decay_all,
}

-- Nothing ≤ energy ≤ full, and an archived thread has no energy.
pub record IsThread (t : Thread) : Type 0 where
  pub is_number : 0 < t.energy.whole
  pub at_most_full : t.energy.parts ≤ t.energy.whole
  pub none_left : is_archived t.status && ltb 0 t.energy.parts ≡ false

abbrev pub IsBoard : Board → Type 0
IsBoard = All (λ r. IsThread r.1)

-- One call of an operation on the board.
pub data Step (d : Board) : Board → Type 0 where
  comment :
      (now n : ℕ) (author title category : String)
      → Step d (record_human_comment now n author title category d)
  respond : (now n : ℕ) → Step d (record_agent_response now n d)
  archive : (n : ℕ) → Step d (archive_thread n d)
  heartbeat : Step d (decay_all d).0

pub All-update {κ} :
    (P : Thread → Type κ) (n : ℕ) (f : Thread → Thread) (d : Board)
    → ((t : Thread) → P t → P (f t))
    → All (λ r. P r.1) d
    → All (λ r. P r.1) (update n f d)
unfolding update
All-update P n f [] keeps h = tt
All-update P n f ((m, t) ∷ d) keeps h = elim (Bool-cases (m == n)) [
  | inl here ↦ rw here (keeps t h.0, h.1)
  | inr other ↦ rw other (h.0, All-update P n f d keeps h.1)
]

pub decay_row-IsThread : (t : Thread) → IsThread t → IsThread (decay_row t)
unfolding decay_row
decay_row-IsThread t h = record {
  is_number = ground (arith, h.is_number);
  at_most_full = ground (arith, h.at_most_full);
  none_left = ground (arith, h.none_left);
}

decay_rows-IsBoard : (d : Board) → IsBoard d → IsBoard (decay_rows d)
unfolding decay_rows
decay_rows-IsBoard [] h = tt
decay_rows-IsBoard ((n, t) ∷ d) h = elim (Bool-cases (is_archived t.status)) [
  | inl old ↦ rw old (h.0, decay_rows-IsBoard d h.1)
  | inr live ↦ rw live (decay_row-IsThread t h.0, decay_rows-IsBoard d h.1)
]

commented-IsBoard :
    (now n : ℕ) (author title category : String) (d : Board)
    → IsBoard d
    → IsBoard (record_human_comment now n author title category d)
unfolding record_human_comment new_thread commented
commented-IsBoard now n author title category d h = elim (Option-cases (lookup n d)) [
  | inl missing ↦
      let e : record_human_comment now n author title category d
          ≡ d ++ (n, new_thread now author title category) ∷ [] =
        ground (arith, missing) in
      subst IsBoard (sym e) (
        All-append (λ r. IsThread r.1) d _ h
          (record { is_number = omega arith; at_most_full = omega arith; none_left = refl }, tt))
  | inr (q, known) ↦
      let e : record_human_comment now n author title category d
          ≡ update n (commented now author title category) d =
        ground (arith, known) in
      subst IsBoard (sym e) (
        All-update IsThread n (commented now author title category) d
          (λ t _. record { is_number = omega arith; at_most_full = omega arith; none_left = refl })
          h)
]

-- After any operation the energy of every thread still lies between nothing and full, and an archived
-- thread has none.
pub Step-IsBoard : {d d' : Board} (step : Step d d') → IsBoard d → IsBoard d'
unfolding record_agent_response archive_thread decay_all answered
Step-IsBoard {d} (comment now n author title category) h =
    commented-IsBoard now n author title category d h
Step-IsBoard {d} (respond now n) h =
    All-update IsThread n (answered now) d
      (λ t k. record { is_number = k.is_number; at_most_full = k.at_most_full; none_left = refl }) h
Step-IsBoard {d} (archive n) h =
    All-update IsThread n shut d
      (λ t _. record { is_number = omega arith; at_most_full = omega arith; none_left = refl }) h
Step-IsBoard {d} heartbeat h = decay_rows-IsBoard d h
