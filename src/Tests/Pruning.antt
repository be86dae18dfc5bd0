-- ===== src/Tests/Pruning.antt =====
-- A long tool result before the last turn is pruned.
use sandbar.Base.{ℕ, Str, codes, replicate, false, List, [], ◌∷◌, ◌≡◌, refl}
use sandbar.Agent.Messages.{Role, user, assistant, tool, Message, IndexedMessage, thread_message}
use sandbar.Agent.Payload.{validate_provider_payload}
use sandbar.Agent.Truncate.{to_raw_messages}
use sandbar.Agent.Prune.{prune_old_tool_outputs, prune_from, prunes, last_user_from}
use sandbar.Agent.Prune.Payloads.{recent, prune-validate}

abbrev from_thread : ℕ → Message → IndexedMessage
from_thread seq msg = record { seq = seq; synthetic = false; kind = thread_message; msg = msg }

abbrev says : Role → Str → Message
says role content = record { role = role; content = content; tool_calls = []; tool_call_id = [] }

abbrev turns : List IndexedMessage
turns =
    from_thread 1 (says user (codes "go"))
    ∷ from_thread 2 (record {
      role = assistant;
      content = [];
      tool_calls =
          record {
            id = codes "c";
            kind = codes "function";
            name = codes "shell";
            arguments = codes "{}";
          }
          ∷ [];
      tool_call_id = [];
    })
    ∷ from_thread 3 (record {
      role = tool;
      content = replicate 2001 97;
      tool_calls = [];
      tool_call_id = codes "c";
    })
    ∷ from_thread 4 (says user (codes "on"))
    ∷ []

one_pruned : (prune_old_tool_outputs (λ n. codes "n") turns).1 ≡ 1
unfolding prune_old_tool_outputs prune_from prunes last_user_from
one_pruned = refl

prune-validate_example :
    (validate_provider_payload (to_raw_messages (prune_old_tool_outputs (λ n. codes "n") turns).0)
      ≡ validate_provider_payload (to_raw_messages turns))
    × (recent (last_user_from 0 turns) (prune_old_tool_outputs (λ n. codes "n") turns).0
        ≡ recent (last_user_from 0 turns) turns)
prune-validate_example = prune-validate (λ n. codes "n") turns
