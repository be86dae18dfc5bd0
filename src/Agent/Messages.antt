-- ===== src/Agent/Messages.antt =====
-- Chat messages as the agent builds them: `openai.ChatCompletionMessage`, of which the fields that
-- internal/agent reads are kept, and `indexedMessage` of internal/agent/compression.go.
use sandbar.Base.{ℕ, Str, Bool, true, false, List}

-- The role strings that the source compares with; `other` is any other string.
pub data Role : Type 0 where
  system user assistant tool : Role
  other : Str → Role

abbrev pub is_tool : Role → Bool
is_tool tool = true
is_tool system = false
is_tool user = false
is_tool assistant = false
is_tool (other s) = false

abbrev pub is_user : Role → Bool
is_user user = true
is_user system = false
is_user tool = false
is_user assistant = false
is_user (other s) = false

abbrev pub is_assistant : Role → Bool
is_assistant assistant = true
is_assistant system = false
is_assistant tool = false
is_assistant user = false
is_assistant (other s) = false

abbrev pub is_system : Role → Bool
is_system system = true
is_system assistant = false
is_system tool = false
is_system user = false
is_system (other s) = false

pub record ToolCall : Type 0 where
  pub id : Str
  pub kind : Str
  pub name : Str
  pub arguments : Str

pub record Message : Type 0 where
  pub role : Role
  pub content : Str
  pub tool_calls : List ToolCall
  pub tool_call_id : Str

-- `Kind` of an indexed message, of which the source compares one and writes these.
pub data Kind : Type 0 where
  system_prompt compression_summary active_turn_summary thread_message : Kind
  todo_nudge tropical_verify_nudge : Kind

pub record IndexedMessage : Type 0 where
  pub seq : ℕ
  pub synthetic : Bool
  pub kind : Kind
  pub msg : Message
