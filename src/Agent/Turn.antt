-- ===== src/Agent/Turn.antt =====
-- internal/agent/agent.go, the turn loop: what it asks of the rest of the program, its errors, and the
-- steps that it is made of. `W` is the world outside the loop. Calls that may fail return a new world
-- whether they fail or not.
pub mod Calls
pub mod Rounds
pub mod Chat
pub mod Pairing
pub mod Store
use sandbar.Base.{
  ℕ, Str, codes, if◌then◌else◌, Bool, true, false, Option, none, some, List, [], Outcome, ok, err,
}
use sandbar.Agent.Messages.{Role, assistant, user, tool, ToolCall, Message, IndexedMessage, Kind}
use sandbar.Agent.Payload.{Violation}
use sandbar.Agent.TextTools.Ids as Ids

-- `llm.StreamEvent`, as the loop sends it.
pub data StreamEvent : Type 0 where
  thread_started : StreamEvent
  intermediate : Str → StreamEvent
  tool_called : ToolCall → StreamEvent
  tool_returned : ToolCall → Str → StreamEvent
  token : Str → StreamEvent
  user_message : Str → StreamEvent
  usage : ℕ → StreamEvent
  failed : Str → StreamEvent
  done : StreamEvent
  relayed : Str → StreamEvent

-- `llm.CompletionResult`, with whether it was streamed while it arrived.
pub record Completion : Type 0 where
  pub content : Str
  pub tool_calls : List ToolCall
  pub total_tokens : ℕ
  pub streamed_live : Bool

pub data ChatError : Type 0 where
  plan_failed : Str → ChatError
  persist_failed : Str → ChatError
  event_failed : Str → ChatError
  build_failed : Str → ChatError
  unsafe_payload : ChatError
  invalid_payload : Violation → ChatError
  complete_failed : Str → ChatError
  invalid_group : Violation → ChatError
  cancelled : Str → ChatError
  repeated_calls : ℕ → Option Str → ChatError
  stream_failed : Str → ChatError
  unclosed : ChatError → Str → ChatError

-- Whether the store failed while results were written for the calls of a group that was cut short.
unfoldable pub is_unclosed : ChatError → Bool
is_unclosed (plan_failed s) = false
is_unclosed (persist_failed s) = false
is_unclosed (event_failed s) = false
is_unclosed (build_failed s) = false
is_unclosed unsafe_payload = false
is_unclosed (invalid_payload v) = false
is_unclosed (complete_failed s) = false
is_unclosed (invalid_group v) = false
is_unclosed (cancelled s) = false
is_unclosed (repeated_calls n e) = false
is_unclosed (stream_failed s) = false
is_unclosed (unclosed cause s) = true

pub data PlanMode : Type 0 where
  plan_off planning pending_approval approved : PlanMode

pub record Host (W : Type 0) : Type 0 where
  -- `onEvent`, with the error that it returns.
  pub on_event : StreamEvent → W → W × Option Str
  -- `ctx.Err()`
  pub context_error : W → W × Option Str
  -- `store.AppendMessage` and `AppendAssistantMessageWithToolCalls` on the turn's thread, which
  -- return the message's number.
  pub append : Message → W → W × Outcome Str ℕ
  pub set_plan_mode : PlanMode → W → W × Option Str
  pub has_todos : W → W × Bool
  -- The queue of the thread in `SteeringQueues`.
  pub begin_turn : W → W
  pub drain : W → W × List Str
  pub end_turn : W → W × List Str
  pub build_messages : W → W × Outcome Str (List IndexedMessage)
  -- `compressIfNeeded` with its events: the messages, and whether its error is
  -- `ErrUnsafeProviderPayload`.
  pub compress : List IndexedMessage → W → W × (List IndexedMessage × Bool)
  -- A completion under `runWithLLMRetry`, and the start of a stream.
  pub complete : List Message → W → W × Outcome Str Completion
  pub open_stream : List Message → W → W × Outcome Str (List StreamEvent)
  -- `parseTextToolCalls` with the counter of the process.
  pub parse_text : Str → W → W × List Ids.ToolCall
  -- `executeOneToolCall`, and `executeTool` with the text that its error becomes.
  pub execute : ToolCall → W → W × Str
  pub execute_text : ToolCall → W → W × Str
  -- The order in which the workers of a batch take its calls, by index.
  pub schedule : List ToolCall → W → W × List ℕ
  pub can_run_concurrently : Str → Bool
  -- Of the calls of a round, for the loop guard.
  pub digest : List ToolCall → Str

-- A step: it ends with a value or an error, and a new world.
abbrev pub Step : Type 0 → Type 0 → Type 0
Step W A = W → W × Outcome ChatError A

abbrev pub continue :
    {W A B : Type 0} → W × Outcome ChatError A → (A → Step W B) → W × Outcome ChatError B
continue (w, ok a) f = f a w
continue (w, err e) f = (w, err e)

infixl 5 ◌>>=◌ ◌>>◌
abbrev pub ◌>>=◌ : {W A B : Type 0} → Step W A → (A → Step W B) → Step W B
◌>>=◌ m f w = continue (m w) f

abbrev pub ◌>>◌ : {W B : Type 0} → Step W (Unit {0}) → Step W B → Step W B
m >> k = m >>= λ _. k

abbrev pub pure : {W A : Type 0} → A → Step W A
pure a w = (w, ok a)

abbrev pub fail : {W A : Type 0} → ChatError → Step W A
fail e w = (w, err e)

-- A call that cannot fail, one whose error is dropped, and one whose error is wrapped.
abbrev pub ask : {W A : Type 0} → (W → W × A) → Step W A
ask m w = let (w', a) = m w in (w', ok a)

abbrev pub drop_error : {W A : Type 0} → (W → W × A) → Step W (Unit {0})
drop_error m w = ((m w).0, ok tt)

abbrev pub wrapped : {A : Type 0} → (Str → ChatError) → Outcome Str A → Outcome ChatError A
wrapped wrap (ok a) = ok a
wrapped wrap (err e) = err (wrap e)

abbrev pub attempt : {W A : Type 0} → (Str → ChatError) → (W → W × Outcome Str A) → Step W A
attempt wrap m w = let (w', r) = m w in (w', wrapped wrap r)

abbrev pub raised : (Str → ChatError) → Option Str → Outcome ChatError (Unit {0})
raised wrap none = ok tt
raised wrap (some e) = err (wrap e)

abbrev pub check : {W : Type 0} → (Str → ChatError) → (W → W × Option Str) → Step W (Unit {0})
check wrap m w = let (w', e) = m w in (w', raised wrap e)

abbrev pub emit : {W : Type 0} → Host W → StreamEvent → Step W (Unit {0})
emit host ev = check event_failed (host.on_event ev)

-- The messages that the loop writes.
abbrev pub assistant_message : Str → List ToolCall → Message
assistant_message content calls = record {
  role = assistant;
  content = content;
  tool_calls = calls;
  tool_call_id = [];
}

abbrev pub user_text : Str → Message
user_text content = record { role = user; content = content; tool_calls = []; tool_call_id = [] }

abbrev pub result_message : Str → Str → Message
result_message id output = record {
  role = tool;
  content = output;
  tool_calls = [];
  tool_call_id = id;
}
