-- ===== src/Memory/Todo.antt =====
-- internal/memory/plan.go: todo items, their validation and the allocation of their ids.
-- `FormatInt` and `ParseInt` of strconv are the parameters `digits` and `parse_int`; the latter is
-- `none` on an error and on a negative number. `trim` is `strings.TrimSpace`.
use sandbar.Base.{
  ℕ, zero, suc, ◌+◌, ◌-◌, ◌^◌, max, Str, codes, str_eq, contains, ◌==◌, if◌then◌else◌, Bool, true,
  false, Option, none, some, List, [], ◌∷◌, not, ◌&&◌,
}

-- What an operation reports in place of a result; a number is the item's, counted from 1.
pub data PlanError : Type 0 where
  empty_thread_id : PlanError
  thread_not_found : PlanError
  plan_exists : PlanError
  no_items : PlanError
  supplies_id : ℕ → PlanError
  supplies_position : ℕ → PlanError
  wrong_thread : ℕ → PlanError
  empty_content : ℕ → PlanError
  invalid_status : ℕ → PlanError
  repeated_id : ℕ → PlanError
  id_too_large : ℕ → PlanError
  empty_id : ℕ → PlanError
  no_changes : ℕ → PlanError
  todo_not_found : Str → PlanError
  ids_exhausted : PlanError
  constraint_failed : ℕ → PlanError

pub data Result {ℓ} (A : Type ℓ) : Type ℓ where
  done : A → Result A
  error : PlanError → Result A

infixl 10 ◌>>=◌
abbrev pub ◌>>=◌ {ℓ κ} : {A : Type ℓ} {B : Type κ} → Result A → (A → Result B) → Result B
done a >>= f = f a
error e >>= f = error e

pub record TodoItem : Type 0 where
  pub id : Str
  pub thread_id : Str
  pub content : Str
  pub status : Str
  pub position : ℕ
  pub created_at : ℕ
  pub updated_at : ℕ

-- A nil field is `none`.
pub record TodoUpdate : Type 0 where
  pub id : Str
  pub content : Option Str
  pub status : Option Str

abbrev pub todo_pending : Str
todo_pending = codes "pending"

unfoldable pub status_valid : Str → Bool
status_valid s =
    contains s (todo_pending ∷ codes "in_progress" ∷ codes "completed" ∷ codes "cancelled" ∷ [])

abbrev pub max_int64 : ℕ
max_int64 = 2 ^ 63 - 1

module _ (trim : Str → Str) where
  unfoldable pub validate_plan_thread_id : Str → Result Str
  validate_plan_thread_id thread_id =
      if str_eq (trim thread_id) [] then error empty_thread_id else done (trim thread_id)

  -- `index` counts from 0; the item comes back because its status is trimmed in place.
  unfoldable pub validate_todo_draft : Str → ℕ → TodoItem → Result TodoItem
  validate_todo_draft thread_id index item =
      if not (str_eq item.thread_id []) && not (str_eq (trim item.thread_id) thread_id)
      then error (wrong_thread (index + 1))
      else if str_eq (trim item.content) []
      then error (empty_content (index + 1))
      else if str_eq item.status []
      then done item
      else if status_valid (trim item.status)
      then done (record item { status = trim item.status })
      else error (invalid_status (index + 1))

  -- The loop over the drafts of `CreateTodos`.
  unfoldable pub validate_drafts : Str → ℕ → List TodoItem → Result (List TodoItem)
  validate_drafts thread_id index [] = done []
  validate_drafts thread_id index (item ∷ items) =
      if not (str_eq (trim item.id) [])
      then error (supplies_id (index + 1))
      else if not (item.position == 0)
      then error (supplies_position (index + 1))
      else (validate_todo_draft thread_id index item >>= λ draft.
          validate_drafts thread_id (index + 1) items >>= λ drafts. done (draft ∷ drafts))

  -- The patch of an update, with its fields trimmed in place.
  unfoldable pub validate_patch : ℕ → Str → TodoUpdate → Result TodoUpdate
  validate_patch index id u =
      if elim u.content [ none ↦ false | some content ↦ str_eq (trim content) [] ]
      then error (empty_content (index + 1))
      else elim u.status [
        | none ↦ done (record u { id = id })
        | some status ↦
            if status_valid (trim status)
            then done (record u { id = id; status = some (trim status) })
            else error (invalid_status (index + 1))
      ]

  unfoldable pub has_changes : TodoUpdate → Bool
  has_changes u = elim u.content [
    | some content ↦ true
    | none ↦ elim u.status [ some status ↦ true | none ↦ false ]
  ]

  -- The loop of `validateTodoUpdates`, with the ids it has seen.
  unfoldable pub validate_updates_from : ℕ → List Str → List TodoUpdate → Result (List TodoUpdate)
  validate_updates_from index seen [] = done []
  validate_updates_from index seen (u ∷ us) =
      if str_eq (trim u.id) []
      then error (empty_id (index + 1))
      else if contains (trim u.id) seen
      then error (repeated_id (index + 1))
      else if not (has_changes u)
      then error (no_changes (index + 1))
      else (validate_patch index (trim u.id) u >>= λ patch.
          validate_updates_from (index + 1) (trim u.id ∷ seen) us >>= λ patches.
          done (patch ∷ patches))

  unfoldable pub validate_todo_updates : List TodoUpdate → Result (List TodoUpdate)
  validate_todo_updates [] = error no_items
  validate_todo_updates (u ∷ us) = validate_updates_from 0 [] (u ∷ us)

  unfoldable pub validate_ids_from : ℕ → List Str → List Str → Result (List Str)
  validate_ids_from index seen [] = done []
  validate_ids_from index seen (id ∷ ids) =
      if str_eq (trim id) []
      then error (empty_id (index + 1))
      else if contains (trim id) seen
      then error (repeated_id (index + 1))
      else (validate_ids_from (index + 1) (trim id ∷ seen) ids >>= λ clean. done (trim id ∷ clean))

  unfoldable pub validate_todo_ids : List Str → Result (List Str)
  validate_todo_ids [] = error no_items
  validate_todo_ids (id ∷ ids) = validate_ids_from 0 [] (id ∷ ids)

module _ (digits : ℕ → Str) where
  -- The loop of `allocateTodoID`, where `left` is `math.MaxInt64 - nextID`: at 0 both branches of
  -- the source report that the ids are exhausted.
  unfoldable pub allocate_from : ℕ → ℕ → List Str → Result (Str × ℕ)
  allocate_from zero next used = error ids_exhausted
  allocate_from (suc left) next used = elim (contains (digits next) used) [
    | true ↦ allocate_from left (next + 1) used
    | false ↦ done (digits next, next + 1)
  ]

  unfoldable pub allocate_todo_id : ℕ → List Str → Result (Str × ℕ)
  allocate_todo_id next used = allocate_from (max_int64 - max next 1) (max next 1) used

-- `if status == "" { status = TodoPending }`
unfoldable pub default_status : Str → Str
default_status status = if str_eq status [] then todo_pending else status
