-- ===== src/Agent/Compaction.antt =====
-- src/agent/history-compaction.logic.ts: whether the history is too long, and where it is cut.
use jin_core.Base.{
  ℕ, zero, suc, String, Bool, true, false, Option, none, some, List, [], ◌∷◌, ◌-◌, leb, length,
  if◌then◌else◌,
}
use Prim.Native.String.{◌++◌}
use jin_core.ModelProvider.Types.{
  ModelMessage, Content, plain, blocks, Role, user, assistant, ModelMessageContentBlock, text,
  tool_use, tool_result,
}
use jin_core.Budget.Guarded.{messages_tokens}
use jin_core.Runtime.World.{Host}

pub record HistoryCompactionConfig : Type 0 where
  pub max_history_tokens : ℕ
  pub preserve_last_turns : ℕ

pub record HistoryCompactionPlan : Type 0 where
  pub to_compact : List ModelMessage
  pub to_preserve : List ModelMessage

-- a turn starts with the user's own text; the results of tools come in blocks
abbrev pub is_objective : Role → Content → Bool
is_objective user (plain _) = true
is_objective _ _ = false

abbrev pub starts_turn : ModelMessage → Bool
starts_turn m = is_objective m.role m.content

-- the indices from `i` on
unfoldable pub turn_starts_from : ℕ → List ModelMessage → List ℕ
turn_starts_from i [] = []
turn_starts_from i (m ∷ ms) =
    let rest = turn_starts_from (suc i) ms in if starts_turn m then i ∷ rest else rest

unfoldable pub find_turn_start_indices : List ModelMessage → List ℕ
unfolding turn_starts_from
find_turn_start_indices messages = turn_starts_from 0 messages

unfoldable pub get_elem? : {A : Type 0} → List A → ℕ → Option A
get_elem? [] i = none
get_elem? (x ∷ xs) zero = some x
get_elem? (x ∷ xs) (suc i) = get_elem? xs i

unfoldable pub take : {A : Type 0} → ℕ → List A → List A
take zero xs = []
take (suc n) [] = []
take (suc n) (x ∷ xs) = x ∷ take n xs

unfoldable pub drop : {A : Type 0} → ℕ → List A → List A
drop zero xs = xs
drop (suc n) [] = []
drop (suc n) (x ∷ xs) = drop n xs

-- `undefined` and 0 are no cut
unfoldable pub cut_at : List ModelMessage → Option ℕ → Option HistoryCompactionPlan
unfolding take drop
cut_at messages none = none
cut_at messages (some zero) = none
cut_at messages (some (suc i)) =
    some (record { to_compact = take (suc i) messages; to_preserve = drop (suc i) messages })

abbrev pub cut_behind : List ModelMessage → List ℕ → ℕ → Option HistoryCompactionPlan
cut_behind messages starts keep =
    if leb (length starts) keep
    then none
    else cut_at messages (get_elem? starts (length starts - keep))

unfoldable pub plan_history_compaction :
    Host → List ModelMessage → HistoryCompactionConfig → Option HistoryCompactionPlan
unfolding messages_tokens find_turn_start_indices get_elem? cut_at
plan_history_compaction h messages c =
    if leb (messages_tokens h messages) c.max_history_tokens
    then none
    else cut_behind messages (find_turn_start_indices messages) c.preserve_last_turns

abbrev pub role_label : Role → String
role_label user = "Usuario"
role_label assistant = "Jin"

abbrev pub block_line : ModelMessageContentBlock → String
block_line (text s) = s
block_line (tool_use call) = "[llamó a la tool " ++ call.name ++ "]"
block_line (tool_result _ output _) = "[resultado de tool: " ++ output ++ "]"

-- `.map(...).join('\n')`
unfoldable pub block_lines : List ModelMessageContentBlock → String
block_lines [] = ""
block_lines (b ∷ []) = block_line b
block_lines (b ∷ c ∷ bs) = block_line b ++ "\n" ++ block_lines (c ∷ bs)

abbrev pub content_lines : Content → String
content_lines (plain s) = s
content_lines (blocks bs) = block_lines bs

abbrev pub message_line : ModelMessage → String
message_line m = role_label m.role ++ ": " ++ content_lines m.content

unfoldable pub render_messages_as_transcript : List ModelMessage → String
unfolding block_lines
render_messages_as_transcript [] = ""
render_messages_as_transcript (m ∷ []) = message_line m
render_messages_as_transcript (m ∷ n ∷ ms) =
    message_line m ++ "\n" ++ render_messages_as_transcript (n ∷ ms)
