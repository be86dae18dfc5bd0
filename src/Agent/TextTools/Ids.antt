-- ===== src/Agent/TextTools/Ids.antt =====
-- internal/agent/text_tool_parser.go: the ids of tool calls that were written as text.
pub mod Unique
use sandbar.Base.{
  ℕ, zero, suc, ◌+◌, ◌-◌, ◌*◌, ◌/◌, ◌%◌, ◌^◌, ◌≤◌, ◌<◌, Str, codes, ltb, leb, ◌==◌, if◌then◌else◌,
  Bool, true, false, List, [], ◌∷◌, ◌++◌, ◌≡◌, ◌≢◌, refl, sym, ap, ◌∙◌, arith, Bool-cases, inl, inr,
  ◌⊎◌, append_assoc, append-nil,
}
use sandbar.Agent.TextTools.{TextHost, RawCall, parse_raw_calls}

-- The loop of `itoa` on fuel; a number is more than its number of digits.
unfoldable pub digits_from : ℕ → ℕ → Str → Str
digits_from zero n digits = digits
digits_from (suc fuel) n digits =
    let rest = digits_from fuel (n / 10) ((48 + n % 10) ∷ digits) in if n == 0 then digits else rest

unfoldable pub itoa : ℕ → Str
itoa n = if n == 0 then codes "0" else digits_from n n []

-- `itoa(int(n))` of a counter of 64 bits: the loop does nothing for a negative number.
unfoldable pub itoa_int : ℕ → Str
itoa_int n = if ltb n (2 ^ 63) then itoa n else []

-- `uniqueTextCallID`: the counter after it, and the id.
unfoldable pub unique_text_call_id : Str → ℕ → ℕ → ℕ × Str
unique_text_call_id tool_name local_seq counter =
    let n = (counter + 1) % 2 ^ 64 in
    (n, tool_name ++ codes "_" ++ itoa local_seq ++ codes "_t" ++ itoa_int n)

pub record ToolCall : Type 0 where
  pub id : Str
  pub name : Str
  pub arguments : Str

-- The ids of the calls of one parse, given in turn.
unfoldable pub number_calls : ℕ → ℕ → List RawCall → ℕ × List ToolCall
number_calls local_seq counter [] = (counter, [])
number_calls local_seq counter (c ∷ cs) =
    let numbered = unique_text_call_id c.name local_seq counter in
    let rest = number_calls (local_seq + 1) numbered.0 cs in
    (rest.0, record { id = numbered.1; name = c.name; arguments = c.arguments } ∷ rest.1)

-- `parseTextToolCalls`: the counter after it, and the calls.
unfoldable pub parse_text_tool_calls : TextHost → Str → ℕ → ℕ × List ToolCall
parse_text_tool_calls h content counter = number_calls 0 counter (parse_raw_calls h content)
