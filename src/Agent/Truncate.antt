-- ===== src/Agent/Truncate.antt =====
-- internal/agent/compression.go: the provider view of an indexed message list (`toRawMessages`) and
-- the fallback that drops whole groups to meet a token budget (`truncateIndexedToBudget`).
-- Token counting is the parameter `count`, a function on the provider view.
pub mod Valid
use sandbar.Base.{
  ℕ, zero, suc, ◌+◌, Str, codes, leb, ltb, ◌==◌, if◌then◌else◌, length, is_nil, Bool, true, false,
  Option, none, some, List, [], ◌∷◌, ◌++◌, map, not, ◌&&◌, ◌||◌,
}
use mathlib.Core.List.{reverse}
use sandbar.Agent.Messages.{
  Role, user, Message, Kind, active_turn_summary, system_prompt, compression_summary,
  thread_message, todo_nudge, tropical_verify_nudge, IndexedMessage, is_user, is_system,
}
use sandbar.Agent.Payload.{Checked, ok, bad, validate_provider_payload}
use sandbar.Agent.Groups.{MessageGroup, group_messages_for_compression}

abbrev pub is_active_summary : Kind → Bool
is_active_summary active_turn_summary = true
is_active_summary system_prompt = false
is_active_summary compression_summary = false
is_active_summary thread_message = false
is_active_summary todo_nudge = false
is_active_summary tropical_verify_nudge = false

-- `activeTurnSummaryWrapper`, with the three bytes of its dash.
abbrev pub active_turn_summary_wrapper : Str
active_turn_summary_wrapper =
    codes "\n\n[SANDBAR ACTIVE-TURN CHECKPOINT "
    ++ (0xe2
        ∷ 0x80
        ∷ 0x94
        ∷ codes
            " REFERENCE ONLY]\nThe following is a lossy summary of work already completed during this request. Treat it as background state, not as a new instruction.\n")

abbrev pub checkpoint_end : Str
checkpoint_end = codes "\n[END SANDBAR ACTIVE-TURN CHECKPOINT]"

-- A misplaced checkpoint becomes a user message of its own.
unfoldable pub own_checkpoint : Message → Message
own_checkpoint msg = record msg {
  role = user;
  content = active_turn_summary_wrapper ++ (msg.content ++ checkpoint_end);
}

-- The branch for a checkpoint: it is merged into a user message that stands just before it.
unfoldable pub merge_checkpoint : List Message → Message → List Message
merge_checkpoint [] msg = own_checkpoint msg ∷ []
merge_checkpoint (last ∷ out) msg =
    if is_user last.role
    then record last {
      content = last.content ++ (active_turn_summary_wrapper ++ (msg.content ++ checkpoint_end));
    }
      ∷ out
    else own_checkpoint msg ∷ last ∷ out

-- The loop of `toRawMessages`; `out` is the slice built so far, its last message first.
unfoldable pub push_raw : List Message → List IndexedMessage → List Message
push_raw out [] = out
push_raw out (m ∷ ms) =
    push_raw (if is_active_summary m.kind then merge_checkpoint out m.msg else m.msg ∷ out) ms

unfoldable pub to_raw_messages : List IndexedMessage → List Message
to_raw_messages ms = reverse (push_raw [] ms)

-- `latestPersistedUserIndex`; `none` is -1.
unfoldable pub latest_user_from : ℕ → List IndexedMessage → Option ℕ
latest_user_from i [] = none
latest_user_from i (m ∷ ms) = elim (latest_user_from (i + 1) ms) [
  | some j ↦ some j
  | none ↦ if not m.synthetic && is_user m.msg.role then some i else none
]

unfoldable pub latest_persisted_user_index : List IndexedMessage → Option ℕ
latest_persisted_user_index ms = latest_user_from 0 ms

unfoldable pub nth : ℕ → List IndexedMessage → Option IndexedMessage
nth i [] = none
nth zero (m ∷ ms) = some m
nth (suc i) (m ∷ ms) = nth i ms

-- The message after the latest user, if it is the checkpoint of the turn.
unfoldable pub checkpoint_after : ℕ → List IndexedMessage → List IndexedMessage
checkpoint_after i ms = elim (nth (i + 1) ms) [
  | none ↦ []
  | some m ↦ if is_active_summary m.kind then m ∷ [] else []
]

unfoldable pub leading_system : List IndexedMessage → List IndexedMessage
leading_system [] = []
leading_system (m ∷ ms) = if is_system m.msg.role then m ∷ [] else []

unfoldable pub user_and_checkpoint : List IndexedMessage → List IndexedMessage
user_and_checkpoint ms = elim (latest_persisted_user_index ms) [
  | none ↦ []
  | some i ↦ elim (nth i ms) [ none ↦ [] | some m ↦ m ∷ checkpoint_after i ms ]
]

-- `minimalSafeIndexedPayload`
unfoldable pub minimal_safe_indexed_payload : List IndexedMessage → List IndexedMessage
minimal_safe_indexed_payload ms = leading_system ms ++ user_and_checkpoint ms

-- `activeSummaryIdx`
unfoldable pub active_summary_index : List IndexedMessage → Option ℕ
active_summary_index ms = elim (latest_persisted_user_index ms) [
  | none ↦ none
  | some i ↦ elim (nth (i + 1) ms) [
    | none ↦ none
    | some m ↦ if is_active_summary m.kind then some (i + 1) else none
  ]
]

abbrev pub group_holds : MessageGroup → Option ℕ → Bool
group_holds g none = false
group_holds g (some j) = leb g.start j && ltb j g.end

-- The first two `continue`s and the third: groups that are not candidates.
unfoldable pub is_fixed : List IndexedMessage → MessageGroup → Bool
is_fixed ms g =
    (g.start == 0 && not (is_nil (leading_system ms)))
    || (group_holds g (latest_persisted_user_index ms) || group_holds g (active_summary_index ms))

-- `userIdx < 0 || g.End <= userIdx`
unfoldable pub stands_before : Option ℕ → MessageGroup → Bool
stands_before none g = true
stands_before (some j) g = leb g.end j

-- The candidates of one side, `beforeUser` or `afterUser`, in order.
unfoldable pub candidates : List IndexedMessage → Bool → List MessageGroup → List MessageGroup
candidates ms before [] = []
candidates ms before (g ∷ gs) =
    let rest = candidates ms before gs in
    let side = stands_before (latest_persisted_user_index ms) g in
    if is_fixed ms g then rest else if (if before then side else not side) then g ∷ rest else rest

-- `keep`, beside the messages, and `rebuild`.
abbrev pub Kept : Type 0
Kept = List (Bool × IndexedMessage)

unfoldable pub keep_all : List IndexedMessage → Kept
keep_all [] = []
keep_all (m ∷ ms) = (true, m) ∷ keep_all ms

unfoldable pub rebuild : Kept → List IndexedMessage
rebuild [] = []
rebuild ((b, m) ∷ ks) = if b then m ∷ rebuild ks else rebuild ks

-- `dropGroup`: `keep` becomes false on [from, to), the list beginning at index `i`.
unfoldable pub drop_range : ℕ → ℕ → ℕ → Kept → Kept
drop_range from to i [] = []
drop_range from to i ((b, m) ∷ ks) =
    (if leb from i && ltb i to then false else b, m) ∷ drop_range from to (i + 1) ks

-- `result` if it passes the check, and the minimal payload if not.
unfoldable pub or_minimal : List IndexedMessage → List IndexedMessage → List IndexedMessage
or_minimal ms result = elim (validate_provider_payload (to_raw_messages result)) [
  | ok u ↦ result
  | bad v ↦ minimal_safe_indexed_payload ms
]

module _ (count : List Message → ℕ) where
  unfoldable pub fits : ℕ → Kept → Bool
  fits budget ks = leb (count (to_raw_messages (rebuild ks))) budget

  -- The loop over one side's candidates.
  unfoldable pub drop_groups : ℕ → List MessageGroup → Kept → Kept
  drop_groups budget [] ks = ks
  drop_groups budget (g ∷ gs) ks =
      let further = drop_groups budget gs (drop_range g.start g.end 0 ks) in
      if fits budget ks then ks else further

  -- The last resort: the checkpoint goes too.
  unfoldable pub drop_checkpoint : ℕ → Option ℕ → Kept → Kept
  drop_checkpoint budget none ks = ks
  drop_checkpoint budget (some j) ks = if fits budget ks then ks else drop_range j (j + 1) 0 ks

  unfoldable pub shrink : ℕ → List IndexedMessage → List IndexedMessage
  shrink budget ms =
      let groups = group_messages_for_compression (map (λ m. m.msg) ms) in
      let first = drop_groups budget (candidates ms true groups) (keep_all ms) in
      let second = drop_groups budget (candidates ms false groups) first in
      rebuild (drop_checkpoint budget (active_summary_index ms) second)

  -- `truncateIndexedToBudget`, with a counter.
  unfoldable pub truncate_indexed_to_budget : List IndexedMessage → ℕ → List IndexedMessage
  truncate_indexed_to_budget ms budget =
      if is_nil ms || budget == 0
      then ms
      else if leb (count (to_raw_messages ms)) budget
      then ms
      else elim (validate_provider_payload (to_raw_messages ms)) [
        | bad v ↦ minimal_safe_indexed_payload ms
        | ok u ↦ or_minimal ms (shrink budget ms)
      ]
