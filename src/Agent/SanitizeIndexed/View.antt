-- ===== src/Agent/SanitizeIndexed/View.antt =====
-- The two repairs agree: dropping the metadata before or after makes no difference.
use sandbar.Base.{
  is_nil, Str, codes, str_eq, if◌then◌else◌, Map, Bool, true, false, List, [], ◌∷◌, ◌++◌, map, not,
  ◌&&◌, ◌≡◌, refl, ap, ◌∙◌, arith,
}
use mathlib.Core.List.{map-append}
use mathlib.Core.Path.{ap₂}
use sandbar.Agent.Messages.{Message, IndexedMessage, is_tool, is_assistant}
use sandbar.Agent.Sanitize.{
  is_open, seal, close, take_message, step, repair, fill_content, sanitize_provider_messages, Phase,
  outer, inner,
}
use sandbar.Agent.SanitizeIndexed.{
  seal_indexed, close_indexed, take_indexed, step_indexed, repair_indexed, fill_indexed,
  sanitize_indexed_messages,
}

abbrev pub raw : List IndexedMessage → List Message
raw = map (λ im. im.msg)

raw-seal :
    (pending : Map Bool) (order : List Str) → raw (seal_indexed pending order) ≡ seal pending order
unfolding seal_indexed seal
raw-seal pending [] = refl
raw-seal pending (id ∷ order) = ground (arith, raw-seal pending order)

abbrev Same : List IndexedMessage × Phase → List Message × Phase → Type 0
Same a b = (raw a.0 ≡ b.0) × (a.1 ≡ b.1)

Same-if :
    (b : Bool) (x y : List IndexedMessage × Phase) (u v : List Message × Phase)
    → Same x u
    → Same y v
    → Same (if b then x else y) (if b then u else v)
Same-if true x y u v h k = h
Same-if false x y u v h k = k

raw-take : (im : IndexedMessage) → Same (take_indexed im) (take_message im.msg)
unfolding take_indexed take_message
raw-take im =
    Same-if (is_assistant im.msg.role && not (is_nil im.msg.tool_calls)) _ _ _ _ (refl, refl)
      (Same-if (is_assistant im.msg.role && str_eq im.msg.content []) _ _ _ _ (refl, refl)
        (Same-if (is_tool im.msg.role) _ _ _ _ (refl, refl) (refl, refl)))

raw-step : (phase : Phase) (im : IndexedMessage) → Same (step_indexed phase im) (step phase im.msg)
unfolding step_indexed step
raw-step outer im = raw-take im
raw-step (inner pending order) im =
    Same-if (is_tool im.msg.role) _ _ _ _
      (Same-if (is_open im.msg.tool_call_id pending) _ _ _ _ (refl, refl) (refl, refl))
      (
        map-append _ (seal_indexed pending order) (take_indexed im).0
            ∙ ap₂ ◌++◌ (raw-seal pending order) (raw-take im).0,
        (raw-take im).1,
      )

raw-repair :
    (phase : Phase) (ims : List IndexedMessage)
    → raw (repair_indexed phase ims) ≡ repair phase (raw ims)
unfolding repair_indexed repair close_indexed close
raw-repair outer [] = refl
raw-repair (inner pending order) [] = raw-seal pending order
raw-repair phase (im ∷ ims) =
    map-append _ (step_indexed phase im).0 (repair_indexed (step_indexed phase im).1 ims)
    ∙ ap₂ ◌++◌ (raw-step phase im).0 (
        raw-repair (step_indexed phase im).1 ims
        ∙ ap (λ q. repair q (raw ims)) (raw-step phase im).1)

raw-fill : (ims : List IndexedMessage) → raw (map fill_indexed ims) ≡ map fill_content (raw ims)
unfolding fill_indexed fill_content
raw-fill [] = refl
raw-fill (im ∷ ims) =
    ap₂ ◌∷◌ (either (not (is_assistant im.msg.role) && str_eq im.msg.content [])) (raw-fill ims)
  where
    either :
        (b : Bool)
        → (if b then record im { msg = record im.msg { content = codes "(empty)" } } else im).msg
          ≡ (if b then record im.msg { content = codes "(empty)" } else im.msg)
    either true = refl
    either false = refl

-- The messages of the repaired view are the repaired messages.
pub raw-sanitize_indexed :
    (ims : List IndexedMessage)
    → raw (sanitize_indexed_messages ims) ≡ sanitize_provider_messages (raw ims)
unfolding sanitize_indexed_messages sanitize_provider_messages
raw-sanitize_indexed ims =
    raw-fill (repair_indexed outer ims) ∙ ap (map fill_content) (raw-repair outer ims)
