-- ===== src/Agent/Turn/Chat/Asks.antt =====
-- What the model is asked.
use sandbar.Base.{ℕ, Str, []}
use sandbar.Agent.Turn.{Host, PlanMode}
use sandbar.Agent.Turn.Rounds.{Config}
use sandbar.Agent.Turn.Chat.{chat}
use sandbar.Agent.Turn.Pairing.{Keeps}
use sandbar.Agent.Turn.Chat.Closed.{chat-Closed}

-- Chat asks the model only with payloads that pass the payload check, with and without tools: what
-- every call out of the turn keeps, where a call of the model keeps it for such payloads, holds after
-- the turn if it held before.
pub chat-Keeps :
    {W : Type 0} (host : Host W) (cfg : Config) (Inv : W → Type 0)
    → Keeps host (λ l. Inv)
    → (fuel : ℕ) (mode : PlanMode) (text : Str) (w : W) → Inv w
    → Inv (chat host cfg fuel mode text w).0
chat-Keeps host cfg Inv keeps fuel mode text w inv =
    (chat-Closed (record { host = host; cfg = cfg; Stores = λ l. Inv; keeps = keeps; base = [] })
      fuel mode text w inv).1
