-- ===== src/Agent/Turn/Pairing.antt =====
-- What a turn leaves in its thread: rules for steps that keep tool calls and results together.
use sandbar.Base.{
  ℕ, Str, str_eq, if◌then◌else◌, Bool, true, false, Option, none, some, List, [], ◌∷◌, ◌++◌, map,
  ◌&&◌, ◌≡◌, refl, append_assoc, arith, Outcome, ok, err,
}
use sandbar.Agent.Messages.{ToolCall, Message, IndexedMessage, is_tool, is_assistant}
use sandbar.Agent.Payload.{Checked, validate_provider_payload}
use sandbar.Agent.Turn.Rounds.{Config}
use sandbar.Agent.Turn.{
  Host, Step, ChatError, persist_failed, event_failed, StreamEvent, PlanMode, is_unclosed, continue,
  ◌>>=◌, check, raised, emit, attempt, wrapped,
}

-- The calls that wait for their results, in order, after one more message: results stand next to
-- their calls, in the order of the calls. `none` is a message out of place.
unfoldable pub follow : Message → List Str → Option (List Str)
follow msg [] =
    if is_tool msg.role
    then none
    else some (if is_assistant msg.role then map (λ tc. tc.id) msg.tool_calls else [])
follow msg (id ∷ ids) = if is_tool msg.role && str_eq msg.tool_call_id id then some ids else none

unfoldable pub open_calls : List Str → List Message → Option (List Str)
open_calls ids [] = some ids
open_calls ids (msg ∷ msgs) = elim (follow msg ids) [
  | none ↦ none
  | some next ↦ open_calls next msgs
]

pub open_calls-last :
    (ids now next : List Str) (msgs : List Message) (msg : Message)
    → open_calls ids msgs ≡ some now
    → follow msg now ≡ some next
    → open_calls ids (msgs ++ msg ∷ []) ≡ some next
unfolding open_calls
open_calls-last ids now next [] msg e f =
    let same : ids ≡ now = ground (arith, e) in rw (same, open_calls, f) refl
open_calls-last ids now next (m ∷ msgs) msg e f =
    after (follow m ids) e (λ n h. open_calls-last n now next msgs msg h f)
  where
    after :
        (o : Option (List Str))
        → elim o as (λ x. Option (List Str)) [ none ↦ none | some n ↦ open_calls n msgs ] ≡ some now
        → ((n : List Str)
            → open_calls n msgs ≡ some now
            → open_calls n (msgs ++ msg ∷ []) ≡ some next)
        → elim o as (λ x. Option (List Str)) [
          | none ↦ none
          | some n ↦ open_calls n (msgs ++ msg ∷ [])
        ]
          ≡ some next
    after none h ih = ground (arith, h)
    after (some n) h ih = ih n h

-- What a write did to the stored messages `l`.
abbrev pub Recorded :
    {W : Type 0} → (List Message → W → Type 0) → List Message → Message → W × Outcome Str ℕ → Type 0
Recorded Stores l msg (w, ok seq) = Stores (l ++ msg ∷ []) w
Recorded Stores l msg (w, err e) = Stores l w

-- `Stores l w`: the messages of the turn's thread are `l`. Only `append` writes to them, and an error
-- leaves them alone. A call of the model keeps this if its payload passes the payload check.
pub record Keeps {W : Type 0} (host : Host W) (Stores : List Message → W → Type 0) : Type 0 where
  pub records :
      (msg : Message) (l : List Message) (w : W)
      → Stores l w
      → Recorded Stores l msg (host.append msg w)
  pub on_event :
      (ev : StreamEvent) (l : List Message) (w : W) → Stores l w → Stores l (host.on_event ev w).0
  pub context_error : (l : List Message) (w : W) → Stores l w → Stores l (host.context_error w).0
  pub set_plan_mode :
      (mode : PlanMode) (l : List Message) (w : W)
      → Stores l w
      → Stores l (host.set_plan_mode mode w).0
  pub has_todos : (l : List Message) (w : W) → Stores l w → Stores l (host.has_todos w).0
  pub drain : (l : List Message) (w : W) → Stores l w → Stores l (host.drain w).0
  pub begin_turn : (l : List Message) (w : W) → Stores l w → Stores l (host.begin_turn w)
  pub end_turn : (l : List Message) (w : W) → Stores l w → Stores l (host.end_turn w).0
  pub build_messages : (l : List Message) (w : W) → Stores l w → Stores l (host.build_messages w).0
  pub compress :
      (ms : List IndexedMessage) (l : List Message) (w : W)
      → Stores l w
      → Stores l (host.compress ms w).0
  pub complete :
      (ms : List Message)
      → validate_provider_payload ms ≡ Checked.ok tt
      → (l : List Message) (w : W) → Stores l w
      → Stores l (host.complete ms w).0
  pub open_stream :
      (ms : List Message)
      → validate_provider_payload ms ≡ Checked.ok tt
      → (l : List Message) (w : W) → Stores l w
      → Stores l (host.open_stream ms w).0
  pub parse_text :
      (s : Str) (l : List Message) (w : W) → Stores l w → Stores l (host.parse_text s w).0
  pub execute :
      (tc : ToolCall) (l : List Message) (w : W) → Stores l w → Stores l (host.execute tc w).0
  pub execute_text :
      (tc : ToolCall) (l : List Message) (w : W) → Stores l w → Stores l (host.execute_text tc w).0
  pub schedule :
      (tcs : List ToolCall) (l : List Message) (w : W)
      → Stores l w
      → Stores l (host.schedule tcs w).0

-- A turn over a world, with the messages that its thread held before.
pub record Setting (W : Type 0) : Type 1 where
  pub host : Host W
  pub cfg : Config
  pub Stores : List Message → W → Type 0
  pub keeps : Keeps host Stores
  pub base : List Message

-- What a step ended in.
abbrev pub Post :
    {W A : Type 0} → (A → W → Type 0) → (ChatError → W → Type 0) → W × Outcome ChatError A → Type 0
Post P Q (w, ok a) = P a w
Post P Q (w, err e) = Q e w

pub Post-continue :
    {W A B : Type 0} (P : A → W → Type 0) (R : B → W → Type 0) (Q : ChatError → W → Type 0)
    (r : W × Outcome ChatError A) (f : A → Step W B)
    → Post P Q r
    → ((a : A) (w : W) → P a w → Post R Q (f a w))
    → Post R Q (continue r f)
Post-continue P R Q (w, ok a) f h k = k a w h
Post-continue P R Q (w, err e) f h k = h

module _ {W : Type 0} (t : Setting W) where
  open t use {host, cfg, Stores, keeps, base}

  -- The turn has stored more messages, and the calls with these ids wait for their results.
  abbrev pub At : List Str → W → Type 0
  At ids w = (more : List Message) × Stores (base ++ more) w × (open_calls [] more ≡ some ids)

  abbrev pub Stored : W → Type 0
  Stored w = (more : List Message) × Stores (base ++ more) w

  abbrev pub LeftBy : Bool → W → Type 0
  LeftBy true w = Stored w
  LeftBy false w = At [] w

  -- What an error leaves: no call waits, unless the store failed to close a group.
  abbrev pub Left : ChatError → W → Type 0
  Left e w = LeftBy (is_unclosed e) w

  -- An error that has yet to close the calls with these ids.
  abbrev pub Soft : List Str → ChatError → W → Type 0
  Soft ids e w = At ids w × (is_unclosed e ≡ false)

  -- A step from one state of waiting calls to another.
  abbrev pub Moves : {A : Type 0} → List Str → W × Outcome ChatError A → Type 0
  Moves ids r = Post (λ a. At ids) Left r

  -- A step that waits for the same calls, whatever its end.
  abbrev pub Holds : {A : Type 0} → List Str → W × Outcome ChatError A → Type 0
  Holds ids r = Post (λ a. At ids) (Soft ids) r

  pub Soft-Left : (e : ChatError) (w : W) → Soft [] e w → Left e w
  Soft-Left e w (at, soft) = rw soft at

  pub Holds-Moves : {A : Type 0} (r : W × Outcome ChatError A) → Holds [] r → Moves [] r
  Holds-Moves (w, ok a) h = h
  Holds-Moves (w, err e) h = Soft-Left e w h

  pub At-kept :
      (ids : List Str) (w w' : W)
      → ((l : List Message) → Stores l w → Stores l w')
      → At ids w
      → At ids w'
  At-kept ids w w' f (more, stored, calls) = (more, f (base ++ more) stored, calls)

  -- A message is stored, or the store is as it was.
  abbrev pub Written : List Str → List Str → W × Outcome Str ℕ → Type 0
  Written ids next (w, ok seq) = At next w
  Written ids next (w, err e) = At ids w

  pub append-Written :
      (ids next : List Str) (msg : Message) (w : W)
      → follow msg ids ≡ some next
      → At ids w
      → Written ids next (host.append msg w)
  append-Written ids next msg w f (more, stored, calls) =
      by_result (host.append msg w) (keeps.records msg (base ++ more) w stored)
    where
      by_result :
          (r : W × Outcome Str ℕ) → Recorded Stores (base ++ more) msg r → Written ids next r
      by_result (w', ok seq) h = (
        more ++ msg ∷ [],
        rw (← (append_assoc base more (msg ∷ []))) h,
        open_calls-last [] ids next more msg calls f,
      )
      by_result (w', err e) h = (more, h, calls)

  -- The rules for the steps that ask, emit and write.
  pub check-Holds :
      (ids : List Str) (wrap : Str → ChatError) (m : W → W × Option Str) (w : W)
      → ((e : Str) → is_unclosed (wrap e) ≡ false)
      → ((l : List Message) → Stores l w → Stores l (m w).0)
      → At ids w
      → Holds ids (check wrap m w)
  check-Holds ids wrap m w soft f at = by_result (m w) (At-kept ids w (m w).0 f at)
    where
      by_result : (r : W × Option Str) → At ids r.0 → Holds ids (r.0, raised wrap r.1)
      by_result (w', none) h = h
      by_result (w', some e) h = (h, soft e)

  pub emit-Holds :
      (ids : List Str) (ev : StreamEvent) (w : W) → At ids w → Holds ids (emit host ev w)
  unfolding is_unclosed
  emit-Holds ids ev w at =
      check-Holds ids event_failed (host.on_event ev) w (λ e. refl) (λ l. keeps.on_event ev l w) at

  pub attempt-Holds :
      {A : Type 0} (ids : List Str) (wrap : Str → ChatError) (m : W → W × Outcome Str A) (w : W)
      → ((e : Str) → is_unclosed (wrap e) ≡ false)
      → ((l : List Message) → Stores l w → Stores l (m w).0)
      → At ids w
      → Holds ids (attempt wrap m w)
  attempt-Holds {A} ids wrap m w soft f at = by_result (m w) (At-kept ids w (m w).0 f at)
    where
      by_result : (r : W × Outcome Str A) → At ids r.0 → Holds ids (r.0, wrapped wrap r.1)
      by_result (w', ok a) h = h
      by_result (w', err e) h = (h, soft e)

  pub write-Post :
      (ids next : List Str) (msg : Message) (w : W)
      → follow msg ids ≡ some next
      → At ids w
      → Post (λ seq. At next) (Soft ids) (attempt persist_failed (host.append msg) w)
  unfolding is_unclosed
  write-Post ids next msg w f at =
      by_result (host.append msg w) (append-Written ids next msg w f at)
    where
      by_result :
          (r : W × Outcome Str ℕ)
          → Written ids next r
          → Post (λ seq. At next) (Soft ids) (r.0, wrapped persist_failed r.1)
      by_result (w', ok a) h = h
      by_result (w', err e) h = (h, refl)

  pub Moves-bind :
      {A B : Type 0} (ids next : List Str) (m : Step W A) (f : A → Step W B) (w : W)
      → Moves ids (m w)
      → ((a : A) (w' : W) → At ids w' → Moves next (f a w'))
      → Moves next ((m >>= f) w)
  Moves-bind ids next m f w h k = Post-continue (λ a. At ids) (λ b. At next) Left (m w) f h k
