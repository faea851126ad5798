-- ===== src/Agent/Cut.antt =====
-- Where src/agent/history-compaction.logic.ts cuts a history.
use jin_core.Budget.Guarded.{messages_tokens}
use jin_core.Runtime.World.{Host}
use mathlib.Core.Path.{subst}
use Prim.Native.Nat.{zero}
use jin_core.ModelProvider.Types.{assistant, blocks, plain, Content, user, Role, ModelMessage}
use jin_core.Agent.Compaction.{
  is_objective, cut_behind, plan_history_compaction, find_turn_start_indices, cut_at,
  HistoryCompactionPlan, starts_turn, take, turn_starts_from, drop, get_elem?,
}
use jin_core.Base.{
  String, or_else, leb, none, ◌-◌, Option, ◌<◌, inr, inl, [], ap, Bool-cases, true, suc, arith, ◌+◌,
  false, some, ◌∷◌, count, ◌≡◌, length, ◌++◌, List, ℕ, refl,
}

-- a message in which the user sets an objective: the user's, and a text rather than blocks
abbrev pub IsObjective : ModelMessage → Type 0
IsObjective m = (m.role ≡ user) × ((text : String) × (m.content ≡ plain text))

-- a part of a history that begins with an objective
abbrev pub StartsTurn : List ModelMessage → Type 0
StartsTurn [] = ⊥
StartsTurn (m ∷ _) = IsObjective m

-- the number of the objectives of a history
pub data Turns : List ModelMessage → ℕ → Type 0 where
  no_turn : Turns [] 0
  one_more :
      {m : ModelMessage} {ms : List ModelMessage} {n : ℕ}
      → IsObjective m
      → Turns ms n
      → Turns (m ∷ ms) (suc n)
  no_more :
      {m : ModelMessage} {ms : List ModelMessage} {n : ℕ}
      → ¬ IsObjective m
      → Turns ms n
      → Turns (m ∷ ms) n

objective_of :
    (r : Role) (c : Content)
    → is_objective r c ≡ true
    → (r ≡ user) × ((text : String) × (c ≡ plain text))
objective_of user (plain text) e = (refl, (text, refl))
objective_of user (blocks bs) e = absurd (cc)
objective_of assistant c e = absurd (cc)

is_objective-of :
    (r : Role) (c : Content)
    → (r ≡ user) × ((text : String) × (c ≡ plain text))
    → is_objective r c ≡ true
is_objective-of r c (by_user, (text, is_text)) = rw (by_user, is_text) refl

-- a part of a history at which the code sees a start
abbrev AtStart : List ModelMessage → Type 0
AtStart [] = ⊥
AtStart (m ∷ _) = starts_turn m ≡ true

AtStart-StartsTurn : (ms : List ModelMessage) → AtStart ms → StartsTurn ms
AtStart-StartsTurn [] e = e
AtStart-StartsTurn (m ∷ _) e = objective_of m.role m.content e

abbrev pub turns : List ModelMessage → ℕ
turns messages = count starts_turn messages

turns-Turns : (ms : List ModelMessage) → Turns ms (turns ms)
turns-Turns [] = no_turn
turns-Turns (m ∷ ms) = elim (Bool-cases (starts_turn m)) [
  | inl here ↦ rw here (one_more (objective_of m.role m.content here) (turns-Turns ms))
  | inr skip ↦ rw skip (
      no_more (λ o. absurd (let starts = is_objective-of m.role m.content o in cc))
        (turns-Turns ms))
]

take-append-drop : {A : Type 0} (n : ℕ) (xs : List A) → take n xs ++ drop n xs ≡ xs
unfolding take drop
take-append-drop zero xs = refl
take-append-drop (suc n) [] = refl
take-append-drop (suc n) (x ∷ xs) = ap (λ l. x ∷ l) (take-append-drop n xs)

length-turn_starts_from :
    (i : ℕ) (ms : List ModelMessage) → length (turn_starts_from i ms) ≡ turns ms
unfolding turn_starts_from
length-turn_starts_from i [] = refl
length-turn_starts_from i (m ∷ ms) = ground (arith, length-turn_starts_from (suc i) ms)

-- the `k`-th start, seen from the message with the index `i`
abbrev IsStart : ℕ → ℕ → ℕ → List ModelMessage → Type 0
IsStart i k j ms = (d : ℕ) × (j ≡ i + d) × AtStart (drop d ms) × (turns (drop d ms) + k ≡ turns ms)

later-IsStart :
    (i k j : ℕ) (m : ModelMessage) (ms : List ModelMessage)
    → starts_turn m ≡ false
    → IsStart (suc i) k j ms
    → IsStart i k j (m ∷ ms)
unfolding drop
later-IsStart i k j m ms skip (d, place, start, rest) =
    (suc d, omega arith, start, ground (arith, rest, skip))

this_or_later :
    (i j : ℕ) (m : ModelMessage) (ms : List ModelMessage)
    → starts_turn m ≡ true
    → ((k : ℕ) → get_elem? (turn_starts_from (suc i) ms) k ≡ some j → IsStart (suc i) k j ms)
    → (k : ℕ) → get_elem? (i ∷ turn_starts_from (suc i) ms) k ≡ some j
    → IsStart i k j (m ∷ ms)
unfolding get_elem? drop
this_or_later i j m ms here later zero e = (0, ground (arith, e), here, omega arith)
this_or_later i j m ms here later (suc k) e =
    let (d, place, start, rest) = later k e in
    (suc d, omega arith, start, ground (arith, rest, here))

IsStart-at :
    (i k j : ℕ) (ms : List ModelMessage)
    → get_elem? (turn_starts_from i ms) k ≡ some j
    → IsStart i k j ms
unfolding get_elem? turn_starts_from
IsStart-at i k j [] e = absurd (cc)
IsStart-at i k j (m ∷ ms) e = elim (Bool-cases (starts_turn m)) [
  | inl here ↦ this_or_later i j m ms here (λ k. IsStart-at (suc i) k j ms) k (rw here at e)
  | inr skip ↦ later-IsStart i k j m ms skip (IsStart-at (suc i) k j ms (rw skip at e))
]

-- What a plan says of the history that it cuts.
pub record IsCut (messages : List ModelMessage) (keep : ℕ) (p : HistoryCompactionPlan)
    : Type 0 where
  pub whole : p.to_compact ++ p.to_preserve ≡ messages
  pub some_compacted : 0 < length p.to_compact
  pub starts : StartsTurn p.to_preserve
  pub kept : Turns p.to_preserve keep

length-take-suc : {A : Type 0} (n : ℕ) (xs : List A) → 0 < length xs → 0 < length (take (suc n) xs)
unfolding take
length-take-suc n [] some_left = some_left
length-take-suc n (x ∷ xs) some_left = omega arith

some_turn : (messages : List ModelMessage) {keep : ℕ} → keep < turns messages → 0 < length messages
some_turn [] more = absurd (omega arith)
some_turn (m ∷ ms) more = omega arith

module _ (messages : List ModelMessage) (keep : ℕ) where
  take-drop-IsCut :
      (j : ℕ)
      → AtStart (drop (suc j) messages)
      → 0 < length messages
      → turns (drop (suc j) messages) ≡ keep
      → IsCut messages keep
          (record { to_compact = take (suc j) messages; to_preserve = drop (suc j) messages })
  take-drop-IsCut j start some_left rest = record {
    whole = take-append-drop (suc j) messages;
    some_compacted = length-take-suc j messages some_left;
    starts = AtStart-StartsTurn (drop (suc j) messages) start;
    kept = subst (λ n. Turns (drop (suc j) messages) n) rest (turns-Turns (drop (suc j) messages));
  }

  turns_left :
      (n : ℕ) → n + (turns messages - keep) ≡ turns messages → keep < turns messages → n ≡ keep
  turns_left n e more = omega arith

  cut_at-IsCut :
      (o : Option ℕ) (p : HistoryCompactionPlan)
      → get_elem? (turn_starts_from 0 messages) (turns messages - keep) ≡ o
      → keep < turns messages
      → cut_at messages o ≡ some p
      → IsCut messages keep p
  unfolding cut_at
  cut_at-IsCut none p found more e = absurd (cc)
  cut_at-IsCut (some zero) p found more e = absurd (cc)
  cut_at-IsCut (some (suc j)) p found more e =
      let (d, place, start, rest) = IsStart-at 0 (turns messages - keep) (suc j) messages found in
      let same : d ≡ suc j = omega arith in
      subst (λ q. IsCut messages keep q) (ap (λ o. or_else o p) e)
        (take-drop-IsCut j (subst (λ i. AtStart (drop i messages)) same start)
          (some_turn messages more)
          (turns_left _
            (subst (λ i. turns (drop i messages) + (turns messages - keep) ≡ turns messages) same
              rest)
            more))

  cut_behind-IsCut :
      (p : HistoryCompactionPlan)
      → cut_behind messages (turn_starts_from 0 messages) keep ≡ some p
      → IsCut messages keep p
  cut_behind-IsCut p e = elim (Bool-cases (leb (length (turn_starts_from 0 messages)) keep)) [
    | inl few ↦ absurd (let none_is = rw few at e in cc)
    | inr more ↦
        let count_is = length-turn_starts_from 0 messages in
        let cut = rw more at e in
        cut_at-IsCut _ p refl (ground (arith, more, count_is)) (rw count_is at cut)
  ]

  -- A plan to compact a history cuts it in two: the compacted part is not empty, the preserved part
  -- begins with an objective of the user (a text of the user's, not a list of blocks), and it holds as many
  -- objectives as the configuration keeps.
  pub plan_history_compaction-IsCut :
      (h : Host) (max : ℕ) (p : HistoryCompactionPlan)
      → plan_history_compaction h messages
          (record { max_history_tokens = max; preserve_last_turns = keep })
        ≡ some p
      → IsCut messages keep p
  unfolding plan_history_compaction find_turn_start_indices
  plan_history_compaction-IsCut h max p e =
      elim (Bool-cases (leb (messages_tokens h messages) max)) [
        | inl short ↦ absurd (let none_is = rw short at e in cc)
        | inr long ↦ cut_behind-IsCut p (rw long at e)
      ]
