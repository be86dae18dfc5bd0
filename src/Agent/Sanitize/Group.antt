-- ===== src/Agent/Sanitize/Group.antt =====
-- One group of calls: how the repair and the checker build and close the same `pending` map.
use sandbar.Base.{
  ℕ, ◌+◌, Str, str_eq, contains, Map, lookup, insert, lookup-insert, Distinct, lookup-middle,
  lookup-append_absent, insert-middle, insert-absent, Distinct-insert, str_eq_iff, if◌then◌else◌,
  Bool, true, false, none, some, List, [], ◌∷◌, ◌++◌, ◌≡◌, refl, ◌∙◌, ap, arith, append_assoc,
  append-nil,
}
use sandbar.Agent.Messages.{ToolCall, Message, is_assistant}
use sandbar.Agent.Payload.{
  all_answered, answer, open_call, open_calls, check_message, check_messages,
}
use sandbar.Agent.Payload.Rules.{Passes, Passes-map, Closed, at}
use sandbar.Agent.Sanitize.{index_call, index_calls, seal, synthetic_tool_result}

abbrev pub keys : Map Bool → List Str
keys [] = []
keys ((k, v) ∷ p) = k ∷ keys p

abbrev pub ids : List ToolCall → List Str
ids [] = []
ids (tc ∷ tcs) = tc.id ∷ ids tcs

-- The ids of all calls that assistant messages make.
abbrev pub call_ids : List Message → List Str
call_ids [] = []
call_ids (msg ∷ msgs) = (if is_assistant msg.role then ids msg.tool_calls else []) ++ call_ids msgs

-- No id is empty, none is in `seen`, and none stands twice.
abbrev pub Fresh : List Str → List Str → Type 0
Fresh seen [] = Unit
Fresh seen (id ∷ rest) =
    (str_eq id [] ≡ false) × (contains id seen ≡ false) × Fresh (id ∷ seen) rest

-- No key of the map is empty.
abbrev pub Named : Map Bool → Type 0
Named [] = Unit
Named ((k, v) ∷ p) = (str_eq k [] ≡ false) × Named p

keys-append : (p q : Map Bool) → keys (p ++ q) ≡ keys p ++ keys q
keys-append [] q = refl
keys-append ((k, v) ∷ p) q = ap (◌∷◌ k) (keys-append p q)

keys-insert :
    (k : Str) (p : Map Bool) → lookup k p ≡ none → keys (insert k false p) ≡ keys p ++ k ∷ []
keys-insert k p h = rw (insert-absent k false p h) (keys-append p ((k, false) ∷ []))

covered-insert :
    (k : Str) (seen : List Str) (p : Map Bool) (id : Str)
    → ((j : Str) → contains j seen ≡ false → lookup j p ≡ none)
    → contains id (k ∷ seen) ≡ false
    → lookup id (insert k false p) ≡ none
unfolding contains
covered-insert k seen p id covered h = ground (arith, lookup-insert k id false p, covered id)

pub Named-insert :
    (k : Str) (v : Bool) (p : Map Bool) → str_eq k [] ≡ false → Named p → Named (insert k v p)
unfolding insert
Named-insert k v [] h n = (h, tt)
Named-insert k v ((j, w) ∷ p) h n = ground (arith, Named-insert k v p)

index_call-new :
    (tc : ToolCall) (p : Map Bool)
    → str_eq tc.id [] ≡ false
    → lookup tc.id p ≡ none
    → index_call tc (p, keys p) ≡ (insert tc.id false p, keys (insert tc.id false p))
unfolding index_call
index_call-new tc p named gone = rw (named, gone, keys-insert tc.id p gone) refl

-- What opening the calls `tcs` on top of `p` gives.
abbrev pub Opened : List ToolCall → Map Bool → List Str → List Str × Map Bool → Type 0
Opened tcs p more acc =
    (index_calls tcs (p, keys p) ≡ (acc.1, keys acc.1))
    × Distinct acc.1
    × Named acc.1
    × Fresh acc.0 more

-- The calls of one group: the checker and the repair build the same `pending`.
module _ (i : ℕ) where
  pub open_calls-Passes :
      (tcs : List ToolCall) (seen : List Str) (p : Map Bool) (more : List Str)
      → ((id : Str) → contains id seen ≡ false → lookup id p ≡ none)
      → Distinct p
      → Named p
      → Fresh seen (ids tcs ++ more)
      → Passes (Opened tcs p more) (open_calls i tcs (seen, p))
  unfolding open_calls open_call index_calls index_call
  open_calls-Passes [] seen p more covered d n fresh = (refl, d, n, fresh)
  open_calls-Passes (tc ∷ tcs) seen p more covered d n (named, new, fresh) =
      let gone : lookup tc.id p ≡ none = covered tc.id new in
      let rest =
        open_calls-Passes tcs (tc.id ∷ seen) (insert tc.id false p) more
          (λ id h. covered-insert tc.id seen p id covered h) (Distinct-insert tc.id false p d)
          (Named-insert tc.id false p named n) fresh in
      rw (named, new, gone)
        (Passes-map (Opened tcs (insert tc.id false p) more) (Opened (tc ∷ tcs) p more)
          (open_calls i tcs (tc.id ∷ seen, insert tc.id false p)) rest
          (λ acc (e, d', n', f).
            (ap (index_calls tcs) (index_call-new tc p named gone) ∙ e, d', n', f)))

-- Sealing: `rest` is what the loop has left, `done` what it has passed, `p` the whole map.
abbrev pub Agrees : Map Bool → Map Bool → Type 0
Agrees p [] = Unit
Agrees p ((k, v) ∷ rest) = (lookup k p ≡ some v) × Agrees p rest

abbrev pub Apart : Map Bool → Map Bool → Type 0
Apart done [] = Unit
Apart done ((k, v) ∷ rest) = (lookup k done ≡ none) × Apart done rest

Agrees-cons :
    (k : Str) (v : Bool) (p rest : Map Bool)
    → lookup k rest ≡ none
    → Agrees p rest
    → Agrees ((k, v) ∷ p) rest
unfolding lookup
Agrees-cons k v p [] h a = tt
Agrees-cons k v p ((j, w) ∷ rest) h a =
    ground (arith, str_eq_iff j k, str_eq_iff k j, Agrees-cons k v p rest)

pub Agrees-self : (p : Map Bool) → Distinct p → Agrees p p
unfolding lookup
Agrees-self [] d = tt
Agrees-self ((k, v) ∷ p) d =
    ground (arith, str_eq_iff k k, Agrees-cons k v p p d.0 (Agrees-self p d.1))

Apart-snoc :
    (k : Str) (done rest : Map Bool)
    → lookup k rest ≡ none
    → Apart done rest
    → Apart (done ++ (k, true) ∷ []) rest
unfolding lookup
Apart-snoc k done [] h a = tt
Apart-snoc k done ((j, w) ∷ rest) h a = ground (
  arith,
  str_eq_iff j k,
  str_eq_iff k j,
  lookup-append_absent j done ((k, true) ∷ []),
  Apart-snoc k done rest,
)

pub Apart-nil : (rest : Map Bool) → Apart [] rest
unfolding lookup
Apart-nil [] = tt
Apart-nil ((k, v) ∷ rest) = (refl, Apart-nil rest)

all_answered-snoc :
    (k : Str) (done : Map Bool)
    → all_answered done ≡ true
    → all_answered (done ++ (k, true) ∷ []) ≡ true
unfolding all_answered
all_answered-snoc k [] h = refl
all_answered-snoc k ((j, v) ∷ done) h = ground (arith, all_answered-snoc k done)

module _ (group : ℕ) (p : Map Bool) (seen : List Str) where
  pub seal-Passes :
      (i : ℕ) (rest done : Map Bool)
      → Agrees p rest
      → Named rest
      → Distinct rest
      → Apart done rest
      → all_answered done ≡ true
      → Passes
          (λ w. (w.seen ≡ seen) × Closed w.pending)
          (check_messages i (seal p (keys rest)) (at seen (some (group, done ++ rest))))
  unfolding seal check_messages check_message answer synthetic_tool_result
  seal-Passes i [] done a n d ap' h = rw append-nil (refl, h)
  seal-Passes i ((k, true) ∷ rest) done a n d ap' h = rw a.0 (
      rw (← append_assoc done ((k, true) ∷ []) rest) (
        seal-Passes i rest (done ++ (k, true) ∷ []) a.1 n.1 d.1 (Apart-snoc k done rest d.0 ap'.1)
          (all_answered-snoc k done h)))
  seal-Passes i ((k, false) ∷ rest) done a n d ap' h = rw a.0 (
      rw (n.0, lookup-middle k false done rest ap'.0, insert-middle k true false done rest ap'.0)
        (rw (← append_assoc done ((k, true) ∷ []) rest) (
          seal-Passes (i + 1) rest (done ++ (k, true) ∷ []) a.1 n.1 d.1
            (Apart-snoc k done rest d.0 ap'.1) (all_answered-snoc k done h))))
