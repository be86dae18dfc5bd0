-- ===== src/Tests/Chatting.antt =====
-- Turns over a small world: a list of stored messages, and a context that is cancelled at some point.
use sandbar.Base.{
  All, lookup, insert, str_eq, contains, ℕ, suc, ◌+◌, codes, replicate, leb, if◌then◌else◌, true,
  false, length, none, some, List, [], ◌∷◌, ◌++◌, map, ◌≡◌, ◌≢◌, refl, ap, arith, ok, err,
}
use sandbar.Agent.Turn.Calls
use sandbar.Agent.Turn.Rounds
use sandbar.Agent.Turn.Chat
use sandbar.Agent.Sanitize
use sandbar.Agent.Payload
use sandbar.Agent.Truncate
use sandbar.Agent.ToolLoopGuard
use sandbar.Agent.TextTools.Ids
use sandbar.Agent.Messages.{thread_message, ToolCall, Message}
use sandbar.Agent.Turn.{Host, plan_off, cancelled, repeated_calls}
use sandbar.Agent.Turn.Rounds.{Config}
use sandbar.Agent.Turn.Chat.{Progress, over, chat}
use sandbar.Agent.Turn.Pairing.{Keeps, Setting}
use sandbar.Agent.Turn.Chat.Asks.{chat-Keeps}
use sandbar.Agent.Payload.{Checked, validate_provider_payload}
use sandbar.Agent.Turn.Chat.Closed.{Closes, chat-Closed}
use sandbar.Agent.Turn.Chat.Gives.{Gives}
use sandbar.Agent.Turn.Chat.Ends.{chat-limited, chat-repeating}

record World : Type 0 where
  log : List Message
  rounds : ℕ
  checks : ℕ
  asked : List (List Message)

abbrev two_calls : List ToolCall
two_calls =
    record { id = codes "a"; kind = codes "function"; name = codes "shell"; arguments = codes "{}" }
    ∷ record {
      id = codes "b";
      kind = codes "function";
      name = codes "todo";
      arguments = codes "{}";
    }
    ∷ []

-- The first completion calls two tools and the next answers; the context is cancelled after as many
-- checks.
abbrev host : ℕ → Host World
host checks = record {
  on_event = λ ev w. (w, none);
  context_error = λ w. (
    record w { checks = suc w.checks },
    if leb checks w.checks then some (codes "context canceled") else none,
  );
  append = λ msg w. (record w { log = w.log ++ msg ∷ [] }, ok (length w.log + 1));
  set_plan_mode = λ mode w. (w, none);
  has_todos = λ w. (w, false);
  begin_turn = λ w. w;
  drain = λ w. (w, []);
  end_turn = λ w. (w, []);
  build_messages = λ w. (
    w,
    ok (map (λ m. record { seq = 1; synthetic = false; kind = thread_message; msg = m }) w.log),
  );
  compress = λ ms w. (w, (ms, false));
  complete = λ ms w. (
    record w { rounds = suc w.rounds; asked = ms ∷ w.asked },
    ok (record {
      content = codes "done";
      tool_calls = if leb 1 w.rounds then [] else two_calls;
      total_tokens = 9;
      streamed_live = false;
    }),
  );
  open_stream = λ ms w. (w, ok []);
  parse_text = λ s w. (w, []);
  execute = λ tc w. (w, tc.name);
  execute_text = λ tc w. (w, tc.name);
  schedule = λ tcs w. (w, []);
  can_run_concurrently = λ name. false;
  digest = λ tcs. codes "digest";
}

abbrev Logged : List Message → World → Type 0
Logged l w = w.log ≡ l

host-Keeps : (checks : ℕ) → Keeps (host checks) Logged
host-Keeps checks = record {
  records = λ msg l w e. ap (λ k. k ++ msg ∷ []) e;
  on_event = λ ev l w e. e;
  context_error = λ l w e. e;
  set_plan_mode = λ mode l w e. e;
  has_todos = λ l w e. e;
  drain = λ l w e. e;
  begin_turn = λ l w e. e;
  end_turn = λ l w e. e;
  build_messages = λ l w e. e;
  compress = λ ms l w e. e;
  complete = λ ms valid l w e. e;
  open_stream = λ ms valid l w e. e;
  parse_text = λ s l w e. e;
  execute = λ tc l w e. e;
  execute_text = λ tc l w e. e;
  schedule = λ tcs l w e. e;
}

abbrev config : Config
config = record { supports_tools = true; max_turns = 4; plan_only = false; tropical = false }

abbrev fresh : World
fresh = record { log = []; rounds = 0; checks = 0; asked = [] }

-- The context is cancelled before the second call.
abbrev cut : Setting World
cut = record { host = host 1; cfg = config; Stores = Logged; keeps = host-Keeps 1; base = [] }

chat-Closed_example : Closes Logged [] (chat (host 1) config 5 plan_off (codes "go") fresh)
chat-Closed_example = chat-Closed cut 5 plan_off (codes "go") fresh refl

-- The payloads that the model was asked with are logged, and all pass.
abbrev AskedWell : World → Type 0
AskedWell w = All (λ ms. validate_provider_payload ms ≡ Checked.ok tt) w.asked

host-Asks : Keeps (host 9) (λ l. AskedWell)
host-Asks = record {
  records = λ msg l w e. e;
  on_event = λ ev l w e. e;
  context_error = λ l w e. e;
  set_plan_mode = λ mode l w e. e;
  has_todos = λ l w e. e;
  drain = λ l w e. e;
  begin_turn = λ l w e. e;
  end_turn = λ l w e. e;
  build_messages = λ l w e. e;
  compress = λ ms l w e. e;
  complete = λ ms valid l w e. (valid, e);
  open_stream = λ ms valid l w e. e;
  parse_text = λ s l w e. e;
  execute = λ tc l w e. e;
  execute_text = λ tc l w e. e;
  schedule = λ tcs l w e. e;
}

chat-Keeps_example : AskedWell (chat (host 9) config 5 plan_off (codes "go") fresh).0
chat-Keeps_example = chat-Keeps (host 9) config AskedWell host-Asks 5 plan_off (codes "go") fresh tt

chat-limited_example : Gives (λ p. p ≡ over) (chat (host 9) config 5 plan_off (codes "go") fresh)
chat-limited_example =
    chat-limited (host 9) config 5 plan_off (codes "go") fresh (omega arith) (omega arith)

-- The same request with a new id.
abbrev repeated_call : ℕ → List ToolCall
repeated_call n =
    record {
      id = replicate (n + 1) 97;
      kind = codes "function";
      name = codes "shell";
      arguments = codes "{}";
    }
    ∷ []

abbrev stubborn : Host World
stubborn = record (host 99) {
  complete = λ ms w. (
    record w { rounds = suc w.rounds; asked = ms ∷ w.asked },
    ok (record {
      content = [];
      tool_calls = repeated_call w.rounds;
      total_tokens = 0;
      streamed_live = false;
    }),
  );
}

abbrev unlimited : Config
unlimited = record config { max_turns = 0 }

digest-full : codes "digest" ≢ []
digest-full e = ground (arith, e)

chat-repeating_example :
    Gives (λ p. p ≡ over) (chat stubborn unlimited 6 plan_off (codes "go") fresh)
chat-repeating_example =
    chat-repeating stubborn unlimited (codes "digest") digest-full (λ payload w. (refl, refl)) 6
      plan_off (codes "go") fresh (omega arith)

-- A whole turn, and one that is cancelled between its two calls, which leaves a result for both;
-- and one that the loop guard ends.
whole_and_cut :
    (chat (host 9) config 5 plan_off (codes "go") fresh).1 ≡ ok over
    × ((chat (host 1) config 5 plan_off (codes "go") fresh).1
        ≡ err (cancelled (codes "context canceled")))
    × (map (λ m. m.tool_call_id) (chat (host 1) config 5 plan_off (codes "go") fresh).0.log
        ≡ [] ∷ [] ∷ codes "a" ∷ codes "b" ∷ [])
    × ((chat stubborn unlimited 6 plan_off (codes "go") fresh).1 ≡ err (repeated_calls 6 none))
unfolding Calls.repeated_tool_call_result Calls.all_can_run Calls.tool_batch_can_run_concurrently
    Calls.check_context Calls.run_call Calls.run_in_order Calls.run_scheduled
    Calls.execute_tool_call_batch Calls.close_pending Calls.or_close Calls.announce Calls.output_of
    Calls.store_results Calls.batch_outputs Calls.answer_calls Rounds.turn_limit_reached
    Rounds.repeated_loop_text Rounds.calls_tool Rounds.track Rounds.validate_new_group
    Rounds.read_event Rounds.inject Rounds.drain_steering Rounds.remind Rounds.abort_repeated
    Rounds.compressed Rounds.tool_round Rounds.store_text Rounds.persist_completion
    Rounds.complete_plan_turn Rounds.final_answer Rounds.calls_of Rounds.tools_round
    Rounds.read_stream Rounds.answer_text_calls Rounds.persist_streamed Rounds.stream_and_persist
    Rounds.round Chat.is_undecided Chat.chat_loop Chat.begin_plan Chat.chat_turn
    Chat.keep_undelivered Chat.end_steering_turn Chat.chat Sanitize.synthetic_tool_result
    Sanitize.index_call Sanitize.index_calls Sanitize.unanswered_call_set Sanitize.is_open
    Sanitize.seal Sanitize.close Sanitize.take_message Sanitize.step Sanitize.repair
    Sanitize.fill_content Sanitize.sanitize_provider_messages Payload.all_answered
    Payload.close_pending Payload.answer Payload.open_call Payload.open_calls Payload.open_group
    Payload.check_message Payload.check_messages Payload.validate_provider_payload Truncate.push_raw
    Truncate.to_raw_messages ToolLoopGuard.observe_fingerprint ToolLoopGuard.decide
    ToolLoopGuard.tool_call_group_fingerprint ToolLoopGuard.observe Ids.digits_from Ids.itoa lookup
    insert str_eq contains
whole_and_cut = (refl, refl, refl, refl)
