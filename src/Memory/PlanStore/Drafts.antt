-- ===== src/Memory/PlanStore/Drafts.antt =====
-- Validated drafts have a status that is empty or valid.
use sandbar.Base.{ℕ, ◌+◌, Str, str_eq, contains, ◌==◌, true, List, [], ◌∷◌, ◌&&◌, not, ◌≡◌, refl}
use sandbar.Memory.Todo.{
  TodoItem, default_status, status_valid, validate_todo_draft, validate_drafts,
}
use sandbar.Memory.Holds.{Holds, Holds-bind, Holds-if}
use sandbar.Memory.Plan.Append.{Validated}

default_status-Valid :
    (status : Str) → status_valid status ≡ true → status_valid (default_status status) ≡ true
unfolding default_status status_valid contains str_eq
default_status-Valid [] h = refl
default_status-Valid (c ∷ cs) h = h

-- The status that the item will have is one of the four.
abbrev Fine : TodoItem → Type 0
Fine t = status_valid (default_status t.status) ≡ true

module _ (trim : Str → Str) where
  draft-Valid :
      (id : Str) (index : ℕ) (t : TodoItem) → Holds Fine (validate_todo_draft trim id index t)
  unfolding validate_todo_draft default_status status_valid contains str_eq
  draft-Valid id index t =
      Holds-if Fine (not (str_eq t.thread_id []) && not (str_eq (trim t.thread_id) id)) _ _
        (λ e. tt)
        (λ e.
          Holds-if Fine (str_eq (trim t.content) []) _ _ (λ e. tt)
            (λ e. Holds-if Fine (str_eq t.status []) _ _ (empty_status t.status) (λ e.
              Holds-if Fine (status_valid (trim t.status)) _ _
                (λ v. default_status-Valid (trim t.status) v) (λ e. tt))))
    where
      empty_status :
          (status : Str) → str_eq status [] ≡ true → status_valid (default_status status) ≡ true
      empty_status [] h = refl
      empty_status (c ∷ cs) h = cc

  pub drafts-Validated :
      (id : Str) (index : ℕ) (items : List TodoItem)
      → Holds Validated (validate_drafts trim id index items)
  unfolding validate_drafts
  drafts-Validated id index [] = tt
  drafts-Validated id index (t ∷ ts) =
      Holds-if Validated (not (str_eq (trim t.id) [])) _ _ (λ e. tt)
        (λ e.
          Holds-if Validated (not (t.position == 0)) _ _ (λ e. tt)
            (λ e.
              Holds-bind Fine Validated (validate_todo_draft trim id index t) _
                (draft-Valid id index t)
                (λ d ok.
                  Holds-bind Validated Validated (validate_drafts trim id (index + 1) ts) _
                    (drafts-Validated id (index + 1) ts) (λ ds v. (ok, v)))))
