-- ===== src/Agent/Groups/Tiling.antt =====
-- The groups tile the message list, and a compression boundary is one of their ends.
use sandbar.Base.{
  ℕ, zero, suc, ◌+◌, ◌-◌, ◌≤◌, ◌<◌, length, length-drop, drop, Option, none, some, List, [], ◌∷◌,
  ◌≡◌, refl, arith, ◌⊎◌, inl,
}
use sandbar.Agent.Messages.{Message}
use sandbar.Agent.Groups.{
  MessageGroup, result_run, next_group, group_from, group_messages_for_compression, last_user,
  holds_index, walk_groups, align_compression_boundary,
}

-- The groups begin at `i`, each where the one before ends, none is empty, and the last ends at `n`.
abbrev pub Tiles : ℕ → List MessageGroup → ℕ → Type 0
Tiles i [] n = i ≡ n
Tiles i (g ∷ gs) n = (g.start ≡ i) × (i < g.end) × Tiles g.end gs n

result_run-le : (msgs : List Message) → result_run msgs ≤ length msgs
unfolding result_run
result_run-le [] = omega arith
result_run-le (msg ∷ msgs) = ground (arith, result_run-le msgs)

pub next_group-bounds :
    (i : ℕ) (msg : Message) (msgs : List Message)
    → ((next_group i msg msgs).start ≡ i)
      × (i < (next_group i msg msgs).end)
      × ((next_group i msg msgs).end ≤ i + suc (length msgs))
unfolding next_group
next_group-bounds i msg msgs = ground (arith, result_run-le msgs)

pub group_from-Tiles :
    (fuel i : ℕ) (msgs : List Message)
    → length msgs ≤ fuel
    → Tiles i (group_from fuel i msgs) (i + length msgs)
unfolding group_from
group_from-Tiles fuel i [] h = omega arith
group_from-Tiles zero i (msg ∷ msgs) h = omega arith
group_from-Tiles (suc fuel) i (msg ∷ msgs) h =
    let (begins, moves, fits) = next_group-bounds i msg msgs in
    let e = (next_group i msg msgs).end in
    let rest =
      group_from-Tiles fuel e (drop (e - (i + 1)) msgs)
        (omega (arith, length-drop (e - (i + 1)) msgs)) in
    let same : e + length (drop (e - (i + 1)) msgs) ≡ i + length (msg ∷ msgs) =
      omega (arith, length-drop (e - (i + 1)) msgs) in
    (begins, moves, rw same at rest)

-- The groups of a message list tile it: they begin at 0, follow one another without gap or
-- overlap, none is empty, and the last ends with the list.
pub group_messages-Tiles :
    (msgs : List Message) → Tiles 0 (group_messages_for_compression msgs) (length msgs)
unfolding group_messages_for_compression
group_messages-Tiles msgs =
    let e : 0 + length msgs ≡ length msgs = omega arith in
    rw e at (group_from-Tiles (length msgs) 0 msgs (omega arith))

-- `b` is the end of one of the groups.
abbrev pub EndsAt : ℕ → List MessageGroup → Type 0
EndsAt b [] = ⊥
EndsAt b (g ∷ gs) = (b ≡ g.end) ⊎ EndsAt b gs

-- The walk stops at 0 or at the end of a group, and before the index `j` of the last user message.
abbrev pub Before : Option ℕ → ℕ → Type 0
Before none b = Unit
Before (some j) b = b ≤ j

Before-zero : (last : Option ℕ) → Before last 0
Before-zero none = tt
Before-zero (some j) = omega arith

walk_groups-EndsAt :
    (gs : List MessageGroup) (target : ℕ) (last : Option ℕ) (b : ℕ)
    → (walk_groups gs target last b ≡ b) ⊎ EndsAt (walk_groups gs target last b) gs
unfolding walk_groups
walk_groups-EndsAt [] target last b = inl refl
walk_groups-EndsAt (g ∷ gs) target last b = ground (arith, walk_groups-EndsAt gs target last g.end)

walk_groups-Before :
    (gs : List MessageGroup) (target : ℕ) (last : Option ℕ) (b n : ℕ)
    → Tiles b gs n
    → Before last b
    → Before last (walk_groups gs target last b)
unfolding walk_groups holds_index
walk_groups-Before [] target last b n t h = h
walk_groups-Before (g ∷ gs) target none b n t h = tt
walk_groups-Before (g ∷ gs) target (some j) b n (begins, moves, t) h =
    ground (arith, walk_groups-Before gs target (some j) g.end n t)

-- A compression boundary is 0 or the end of a group, and it never passes the last user message.
pub align_boundary_lem :
    (target : ℕ) (msgs : List Message)
    → ((align_compression_boundary (group_messages_for_compression msgs) target msgs ≡ 0)
        ⊎ EndsAt
            (align_compression_boundary (group_messages_for_compression msgs) target msgs)
            (group_messages_for_compression msgs))
      × Before
          (last_user 0 msgs)
          (align_compression_boundary (group_messages_for_compression msgs) target msgs)
unfolding align_compression_boundary
align_boundary_lem target msgs = (
  walk_groups-EndsAt (group_messages_for_compression msgs) target (last_user 0 msgs) 0,
  walk_groups-Before (group_messages_for_compression msgs) target (last_user 0 msgs) 0 (length msgs)
      (group_messages-Tiles msgs) (Before-zero (last_user 0 msgs)),
)
