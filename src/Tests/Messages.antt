-- ===== src/Tests/Messages.antt =====
-- The message repair, the payload check and the grouping on a small conversation.
use sandbar.Base.{ℕ, length, arith, Str, codes, drop, List, [], ◌∷◌, ◌≡◌, refl, false, ◌⊎◌}
use sandbar.Agent.Messages.{
  Message, user, assistant, tool, ToolCall, IndexedMessage, thread_message,
}
use sandbar.Agent.Payload.{
  ok, bad, validate_provider_payload, unanswered, check_messages, check_message, answer, open_group,
  open_calls, open_call, close_pending, all_answered,
}
use sandbar.Agent.Sanitize.{sanitize_provider_messages}
use sandbar.Agent.Sanitize.Pairing.{sanitize-validate}
use sandbar.Agent.SanitizeIndexed.{sanitize_indexed_messages}
use sandbar.Agent.SanitizeIndexed.View.{raw, raw-sanitize_indexed}
use sandbar.Agent.Groups.Tiling.{EndsAt, Before, align_boundary_lem}
use sandbar.Agent.Groups.{last_user, align_compression_boundary, group_messages_for_compression}
use sandbar.Agent.Groups.Suffix.{boundary-validate}
use sandbar.Base.{str_eq, contains, lookup, insert}
use sandbar.Agent.Truncate.{to_raw_messages, push_raw, truncate_indexed_to_budget}
use sandbar.Agent.Truncate.Valid.{truncate-validate}

abbrev call : Str → ToolCall
call id = record { id = id; kind = codes "function"; name = codes "shell"; arguments = codes "{}" }

abbrev ask : Message
ask = record { role = user; content = codes "go"; tool_calls = []; tool_call_id = [] }

abbrev work : Message
work = record {
  role = assistant;
  content = [];
  tool_calls = call (codes "a") ∷ call (codes "b") ∷ [];
  tool_call_id = [];
}

abbrev result : Str → Message
result id = record { role = tool; content = codes "ok"; tool_calls = []; tool_call_id = id }

-- The call "b" has no result.
abbrev broken : List Message
broken = ask ∷ work ∷ result (codes "a") ∷ ask ∷ []

broken_is_refused : validate_provider_payload broken ≡ bad (unanswered 1 3)
unfolding validate_provider_payload check_messages check_message answer open_group open_calls
    open_call close_pending all_answered lookup insert contains str_eq
broken_is_refused = refl

abbrev whole : List Message
whole = ask ∷ work ∷ result (codes "a") ∷ result (codes "b") ∷ ask ∷ []

sanitize-validate_example : validate_provider_payload (sanitize_provider_messages broken) ≡ ok tt
unfolding contains str_eq
sanitize-validate_example = sanitize-validate broken (refl, refl, (refl, refl, tt))

boundary-validate_example :
    validate_provider_payload
      (drop (align_compression_boundary (group_messages_for_compression whole) 3 whole) whole)
    ≡ ok tt
unfolding validate_provider_payload check_messages check_message answer open_group open_calls
    open_call close_pending all_answered lookup insert contains str_eq
boundary-validate_example = boundary-validate 3 whole refl

abbrev view : List IndexedMessage
view =
    record { seq = 1; synthetic = false; kind = thread_message; msg = ask }
    ∷ record { seq = 2; synthetic = false; kind = thread_message; msg = work }
    ∷ record { seq = 3; synthetic = false; kind = thread_message; msg = result (codes "a") }
    ∷ []

raw-sanitize_indexed_example :
    raw (sanitize_indexed_messages view) ≡ sanitize_provider_messages (raw view)
raw-sanitize_indexed_example = raw-sanitize_indexed view

align_boundary_example :
    ((align_compression_boundary (group_messages_for_compression whole) 3 whole ≡ 0)
      ⊎ EndsAt
          (align_compression_boundary (group_messages_for_compression whole) 3 whole)
          (group_messages_for_compression whole))
    × Before
        (last_user 0 whole)
        (align_compression_boundary (group_messages_for_compression whole) 3 whole)
align_boundary_example = align_boundary_lem 3 whole

abbrev overlong : List IndexedMessage
overlong =
    record { seq = 1; synthetic = false; kind = thread_message; msg = ask }
    ∷ record { seq = 2; synthetic = false; kind = thread_message; msg = work }
    ∷ record { seq = 3; synthetic = false; kind = thread_message; msg = result (codes "a") }
    ∷ record { seq = 4; synthetic = false; kind = thread_message; msg = result (codes "b") }
    ∷ record { seq = 5; synthetic = false; kind = thread_message; msg = ask }
    ∷ []

abbrev one_token_each : List Message → ℕ
one_token_each ms = length ms

truncate-validate_example :
    validate_provider_payload
      (to_raw_messages (truncate_indexed_to_budget one_token_each overlong 2))
    ≡ ok tt
unfolding to_raw_messages push_raw
truncate-validate_example =
    truncate-validate one_token_each overlong 2 refl (omega arith) (omega arith)
