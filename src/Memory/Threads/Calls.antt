-- ===== src/Memory/Threads/Calls.antt =====
-- The tool calls that `GetToolCallsForMessage` gives for a message, after a write.
use sandbar.Base.{
  ℕ, ◌+◌, ◌≤◌, ◌<◌, ◌==◌, leb, Bool, true, false, List, [], ◌∷◌, All, ◌≡◌, refl, ap, append-nil,
  ◌∙◌, arith,
}
use sandbar.Memory.Threads.{MessageRow, AssistantToolCall, Db, Draft, select, exists}
use sandbar.Memory.Threads.Writes.{place_call, order_calls, get_tool_calls_for_message}
use sandbar.Memory.Threads.Tables.{has_message, Consistent, All-map}
use sandbar.Memory.Threads.Inserts.{call_rows}
use sandbar.Memory.Threads.Append.{Appended, select-append}

module _ {A : Type 0} where
  pub select-none : (k : A → Bool) (xs : List A) → All (λ x. k x ≡ false) xs → select k xs ≡ []
  unfolding select
  select-none k [] h = refl
  select-none k (x ∷ xs) h = rw (h.0, select-none k xs h.1) refl

  pub select-every : (k : A → Bool) (xs : List A) → All (λ x. k x ≡ true) xs → select k xs ≡ xs
  unfolding select
  select-every k [] h = refl
  select-every k (x ∷ xs) h = rw (h.0, select-every k xs h.1) refl

order_calls-rows :
    (i message_id : ℕ) (cs : List AssistantToolCall)
    → order_calls (call_rows i message_id cs) ≡ call_rows i message_id cs
unfolding order_calls place_call
order_calls-rows i message_id [] = refl
order_calls-rows i message_id (c ∷ []) = refl
order_calls-rows i message_id (c ∷ d ∷ cs) =
    let low : leb i (i + 1) ≡ true = ground arith in
    rw (order_calls-rows (i + 1) message_id (d ∷ cs), low) refl

call_rows-mine :
    (i message_id : ℕ) (cs : List AssistantToolCall)
    → All (λ c. (c.message_id == message_id) ≡ true) (call_rows i message_id cs)
call_rows-mine i message_id [] = tt
call_rows-mine i message_id (c ∷ cs) = (ground arith, call_rows-mine (i + 1) message_id cs)

call_rows-others :
    (i message_id other : ℕ) (cs : List AssistantToolCall)
    → other < message_id
    → All (λ c. (c.message_id == other) ≡ false) (call_rows i message_id cs)
call_rows-others i message_id other [] low = tt
call_rows-others i message_id other (c ∷ cs) low =
    (ground (arith, low), call_rows-others (i + 1) message_id other cs low)

-- A message that is found has a number that was given.
found-counted :
    (id n : ℕ) (ms : List MessageRow) → All (λ m. m.id ≤ n) ms → has_message id ms ≡ true → id ≤ n
unfolding exists
found-counted id n [] h found = cc found
found-counted id n (m ∷ ms) h found = ground (arith, h.0, found, found-counted id n ms h.1)

old-calls :
    (id : ℕ) (db : Db)
    → Consistent db
    → db.last_message_id < id
    → All (λ c. (c.message_id == id) ≡ false) db.tool_calls
old-calls id db c above =
    All-map (λ call. has_message call.message_id db.messages ≡ true)
      (λ call. (call.message_id == id) ≡ false) db.tool_calls
      (λ call found.
        let low : call.message_id ≤ db.last_message_id =
          found-counted call.message_id db.last_message_id db.messages c.counted found in
        ground (arith, low, above))
      c.calls_owned

-- An appended message has the tool calls of its draft, in their order.
pub Appended-calls :
    (d : Draft) (db after : Db) (m : MessageRow)
    → Consistent db
    → Appended d db (after, m)
    → get_tool_calls_for_message m.id after ≡ call_rows 0 m.id d.tool_calls
unfolding get_tool_calls_for_message
Appended-calls d db after m c (still, rows, made, calls, id) =
    let above : db.last_message_id < m.id = omega (arith, id) in
    ap order_calls (
      ap (select (λ call. call.message_id == m.id)) calls
      ∙ select-append (λ call. call.message_id == m.id) db.tool_calls
          (call_rows 0 m.id d.tool_calls)
      ∙ rw
          (
            select-none (λ call. call.message_id == m.id) db.tool_calls (old-calls m.id db c above),
            select-every (λ call. call.message_id == m.id) (call_rows 0 m.id d.tool_calls)
                (call_rows-mine 0 m.id d.tool_calls),
          )
          refl)
    ∙ order_calls-rows 0 m.id d.tool_calls

-- The messages that were there keep their tool calls.
pub kept_calls :
    (d : Draft) (db after : Db) (m : MessageRow)
    → Consistent db
    → Appended d db (after, m)
    → All
        (λ k. get_tool_calls_for_message k.id after ≡ get_tool_calls_for_message k.id db)
        db.messages
unfolding get_tool_calls_for_message
kept_calls d db after m c (still, rows, made, calls, id) =
    All-map (λ k. k.id ≤ db.last_message_id) _ db.messages
      (λ k low. ap order_calls (
        ap (select (λ call. call.message_id == k.id)) calls
        ∙ select-append (λ call. call.message_id == k.id) db.tool_calls
            (call_rows 0 m.id d.tool_calls)
        ∙ rw
            (select-none (λ call. call.message_id == k.id) (call_rows 0 m.id d.tool_calls)
              (call_rows-others 0 m.id k.id d.tool_calls (omega (arith, id, low))))
            (append-nil (select (λ call. call.message_id == k.id) db.tool_calls))))
      c.counted
