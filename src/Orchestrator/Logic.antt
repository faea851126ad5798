-- ===== src/Orchestrator/Logic.antt =====
-- src/agent/orchestrator.logic.ts: the tickets that can start, the split into chunks, and the state of a
-- run.
use jin_core.Base.{
  ◌↔◌, ◌∙◌, ℕ, zero, suc, ◌≤◌, ◌≡◌, refl, ap, String, Bool, true, false, Option, none, some, List,
  [], ◌∷◌, ◌++◌, length, any, all, filter, All, str_eq, ltb, ◌&&◌, ◌||◌, if◌then◌else◌, arith,
}
use jin_core.Orchestrator.Board.{
  Ticket, TicketStatus, pending, in_progress, done, failed, blocked, waits, ReconciliationConflict,
  low, material, RunStatus, run_blocked, run_done, run_failed,
}

-- `new Map(...)`: the last ticket of an id counts
unfoldable pub status_by_id : List Ticket → String → Option TicketStatus
status_by_id [] id = none
status_by_id (t ∷ ts) id = elim (status_by_id ts id) [
  | some s ↦ some s
  | none ↦ if str_eq t.id id then some t.status else none
]

abbrev pub is_done : Option TicketStatus → Bool
is_done (some done) = true
is_done _ = false

unfoldable pub is_ready : List Ticket → Ticket → Bool
unfolding status_by_id
is_ready tickets t = waits t && all (λ id. is_done (status_by_id tickets id)) t.depends_on

unfoldable pub compute_ready_batch : List Ticket → List Ticket
unfolding is_ready
compute_ready_batch tickets = filter (is_ready tickets) tickets

module _ {ℓ} {A : Type ℓ} where
  -- `items.slice(0, n)` and `items.slice(n)`
  abbrev pub take : ℕ → List A → List A
  take zero xs = []
  take (suc n) [] = []
  take (suc n) (x ∷ xs) = x ∷ take n xs

  abbrev pub drop : ℕ → List A → List A
  drop zero xs = xs
  drop (suc n) [] = []
  drop (suc n) (x ∷ xs) = drop n xs

  -- The loop of `chunk`: each round cuts off at least one item, so as many rounds as items are enough.
  unfoldable pub chunks : ℕ → ℕ → List A → List (List A)
  chunks zero size xs = []
  chunks (suc fuel) size [] = []
  chunks (suc fuel) size (x ∷ xs) = take size (x ∷ xs) ∷ chunks fuel size (drop size (x ∷ xs))

  -- `none` where the source throws
  unfoldable pub chunk : List A → ℕ → Option (List (List A))
  unfolding chunks
  chunk items size = if ltb size 1 then none else some (chunks (length items) size items)

  abbrev pub concat : List (List A) → List A
  concat [] = []
  concat (xs ∷ xss) = xs ++ concat xss

  take-drop : (n : ℕ) (xs : List A) → take n xs ++ drop n xs ≡ xs
  take-drop zero xs = refl
  take-drop (suc n) [] = refl
  take-drop (suc n) (x ∷ xs) = ap (λ l. x ∷ l) (take-drop n xs)

  length-drop : (n : ℕ) (x : A) (xs : List A) → 1 ≤ n → length (drop n (x ∷ xs)) ≤ length xs
  length-drop zero x xs h = absurd (omega arith)
  length-drop (suc n) x xs h = shorter n xs
    where
      shorter : (n : ℕ) (xs : List A) → length (drop n xs) ≤ length xs
      shorter zero xs = omega arith
      shorter (suc n) [] = omega arith
      shorter (suc n) (y ∷ ys) = omega (arith, shorter n ys)

  length-take : (n : ℕ) (xs : List A) → length (take n xs) ≤ n
  length-take zero xs = omega arith
  length-take (suc n) [] = omega arith
  length-take (suc n) (x ∷ xs) = omega (arith, length-take n xs)

  concat-chunks :
      (fuel size : ℕ) (xs : List A)
      → length xs ≤ fuel
      → 1 ≤ size
      → concat (chunks fuel size xs) ≡ xs
  unfolding chunks
  concat-chunks zero size [] enough one = refl
  concat-chunks zero size (x ∷ xs) enough one = absurd (omega arith)
  concat-chunks (suc fuel) size [] enough one = refl
  concat-chunks (suc fuel) size (x ∷ xs) enough one =
      ap (λ l. take size (x ∷ xs) ++ l)
        (concat-chunks fuel size (drop size (x ∷ xs)) (omega (arith, length-drop size x xs one))
          one)
      ∙ take-drop size (x ∷ xs)

  -- at least one item and at most `size`
  abbrev pub Fits : ℕ → List A → Type 0
  Fits size xs = (1 ≤ length xs) × (length xs ≤ size)

  chunks-Fits : (fuel size : ℕ) (xs : List A) → 1 ≤ size → All (Fits size) (chunks fuel size xs)
  unfolding chunks
  chunks-Fits zero size xs one = tt
  chunks-Fits (suc fuel) size [] one = tt
  chunks-Fits (suc fuel) zero (x ∷ xs) one = absurd (omega arith)
  chunks-Fits (suc fuel) (suc size) (x ∷ xs) one = (
    (omega arith, length-take (suc size) (x ∷ xs)),
    chunks-Fits fuel (suc size) (drop (suc size) (x ∷ xs)) one,
  )

  -- For a size of at least one, `chunk` gives back the items in their order, in chunks that are not empty
  -- and not longer than the size.
  pub chunk-concat :
      (items : List A) (size : ℕ)
      → 1 ≤ size
      → (out : List (List A)) × (chunk items size ≡ some out)
        × (concat out ≡ items)
        × All (Fits size) out
  unfolding chunk
  chunk-concat items size one = (
    chunks (length items) size items,
    ground arith,
    concat-chunks (length items) size items (omega arith) one,
    chunks-Fits (length items) size items one,
  )

abbrev pub is_unfinished : Ticket → Bool
is_unfinished t = elim t.status [ pending ↦ true | in_progress ↦ true | blocked ↦ true | _ ↦ false ]

abbrev pub has_failed : Ticket → Bool
has_failed t = elim t.status [ failed ↦ true | _ ↦ false ]

abbrev pub is_material : ReconciliationConflict → Bool
is_material c = elim c.risk_level [ material ↦ true | low ↦ false ]

-- `reconciliation?.conflicts.some(...) ?? false`
abbrev pub has_material : Option (List ReconciliationConflict) → Bool
has_material none = false
has_material (some conflicts) = any is_material conflicts

unfoldable pub compute_run_status : List Ticket → Option (List ReconciliationConflict) → RunStatus
compute_run_status tickets reconciliation =
    if any is_unfinished tickets || has_material reconciliation
    then run_blocked
    else if any has_failed tickets
    then run_failed
    else run_done

All-done :
    (tickets : List Ticket)
    → any is_unfinished tickets ≡ false
    → any has_failed tickets ≡ false
    → All (λ t. t.status ≡ done) tickets
All-done [] u f = tt
All-done (t ∷ ts) u f = (ground arith, All-done ts (ground arith) (ground arith))

none_open :
    (tickets : List Ticket)
    → All (λ t. t.status ≡ done) tickets
    → (any is_unfinished tickets ≡ false) × (any has_failed tickets ≡ false)
none_open [] d = (refl, refl)
none_open (t ∷ ts) (first, rest) = ground (arith, none_open ts rest)

-- A run is done exactly when every ticket is done and no material conflict is left.
pub compute_run_status_done :
    (tickets : List Ticket) (reconciliation : Option (List ReconciliationConflict))
    → (compute_run_status tickets reconciliation ≡ run_done)
      ↔ (All (λ t. t.status ≡ done) tickets × (has_material reconciliation ≡ false))
unfolding compute_run_status
compute_run_status_done tickets reconciliation = (
  λ h. (All-done tickets (ground arith) (ground arith), ground arith),
  λ d. ground (arith, none_open tickets d.0),
)
