-- ===== src/Tools/Hashline.antt =====
-- internal/tools/hashline.go: edits that are anchored to lines by a prefix of their SHA-256.
-- The hash of a line, `lineHash`, is the parameter `line_hash`.
pub mod RoundTrip
use sandbar.Base.{
  ℕ, zero, suc, ◌+◌, min, max, Str, codes, str_eq, newline, leb, ltb, ◌==◌, if◌then◌else◌, Bool,
  true, false, length, take, drop, get_or, is_nil, Map, lookup, insert, Option, none, some, List,
  [], ◌∷◌, ◌++◌, map, not, ◌&&◌, ◌||◌,
}
use sandbar.Tools.Diff.{split_lines}
use sandbar.Tools.DiffText.{split_newlines}

abbrev pub hash_prefix_len : ℕ
hash_prefix_len = 8

abbrev pub space : ℕ
space = 32

pub record HashlineRef : Type 0 where
  pub hash : Str
  pub content : Str

unfoldable pub is_hex_char : ℕ → Bool
is_hex_char c = (leb 48 c && leb c 57) || ((leb 97 c && leb c 102) || (leb 65 c && leb c 70))

unfoldable pub all_hex : Str → Bool
all_hex [] = true
all_hex (c ∷ s) = is_hex_char c && all_hex s

-- The body of the loop of `parseHashline`, on a line that is not empty.
unfoldable pub parse_line : Str → Option HashlineRef
parse_line l =
    if ltb (length l) (hash_prefix_len + 1)
    then none
    else if not (get_or (drop hash_prefix_len l) 0 0 == space)
    then none
    else if not (all_hex (take hash_prefix_len l))
    then none
    else some (record { hash = take hash_prefix_len l; content = drop 1 (drop hash_prefix_len l) })

unfoldable pub parse_lines : List Str → Option (List HashlineRef)
parse_lines [] = some []
parse_lines ([] ∷ ls) = parse_lines ls
parse_lines ((c ∷ l) ∷ ls) = elim (parse_line (c ∷ l)) [
  | none ↦ none
  | some ref ↦ elim (parse_lines ls) [ none ↦ none | some refs ↦ some (ref ∷ refs) ]
]

-- `parseHashline`; `none` is nil.
unfoldable pub parse_hashline : Str → Option (List HashlineRef)
parse_hashline text = elim (parse_lines (split_newlines text)) [
  | none ↦ none
  | some refs ↦ if is_nil refs then none else some refs
]

-- The loops that write lines, each with its newline.
unfoldable pub write_lines : List Str → Str
write_lines [] = []
write_lines (l ∷ ls) = l ++ newline ∷ write_lines ls

-- What `validateHashlines` reports of an anchor; the number is the line's index.
pub data Stale : Type 0 where
  not_found : HashlineRef → Stale
  differs : ℕ → HashlineRef → Stale

-- What `applyHashlineEdit` returns; without anchors it indexes an empty slice.
pub data Edit : Type 0 where
  edited : Str → Edit
  anchor_not_found : Str → Edit
  index_panic : Edit

unfoldable pub extend : ℕ → ℕ → List ℕ → ℕ × ℕ
extend first last [] = (first, last)
extend first last (i ∷ is) =
    extend (if ltb i first then i else first) (if ltb last i then i else last) is

-- The text around the lines from the first to the last index, with new lines between.
unfoldable pub replace_span : List Str → List Str → List ℕ → Edit
replace_span lines new [] = index_panic
replace_span lines new (i ∷ is) =
    let span = extend i i is in
    edited (
      write_lines (take span.0 lines) ++ (write_lines new ++ write_lines (drop (span.1 + 1) lines)))

module _ (line_hash : Str → Str) where
  -- `hashIndex`: of lines with the same hash, the last one stays.
  unfoldable pub hash_index : ℕ → List Str → Map ℕ → Map ℕ
  hash_index i [] index = index
  hash_index i (l ∷ ls) index = hash_index (i + 1) ls (insert (line_hash l) i index)

  unfoldable pub stale_ref : List Str → HashlineRef → List Stale
  stale_ref lines ref = elim (lookup ref.hash (hash_index 0 lines [])) [
    | none ↦ not_found ref ∷ []
    | some i ↦ if str_eq (get_or lines i []) ref.content then [] else differs i ref ∷ []
  ]

  unfoldable pub stale_refs : List Str → List HashlineRef → List Stale
  stale_refs lines [] = []
  stale_refs lines (ref ∷ refs) = stale_ref lines ref ++ stale_refs lines refs

  -- `validateHashlines`; no error is the empty list.
  unfoldable pub validate_hashlines : Str → List HashlineRef → List Stale
  validate_hashlines content refs = stale_refs (split_lines content) refs

  -- The indices of the anchors, and the edit made with them.
  unfoldable pub edit_from : List Str → List Str → List ℕ → List HashlineRef → Edit
  edit_from lines new indices [] = replace_span lines new indices
  edit_from lines new indices (ref ∷ refs) = elim (lookup ref.hash (hash_index 0 lines [])) [
    | none ↦ anchor_not_found ref.hash
    | some i ↦ edit_from lines new (indices ++ i ∷ []) refs
  ]

  unfoldable pub apply_hashline_edit : Str → List HashlineRef → Str → Edit
  apply_hashline_edit content refs new_content =
      edit_from (split_lines content) (split_lines new_content) [] refs

  unfoldable pub stamp : Str → HashlineRef
  stamp l = record { hash = line_hash l; content = l }

  -- The loop of `formatHashlineOutput`.
  unfoldable pub stamp_lines : List Str → Str
  stamp_lines [] = []
  stamp_lines (l ∷ ls) = (line_hash l ++ space ∷ l) ++ newline ∷ stamp_lines ls

  unfoldable pub format_hashline_output : Str → Str
  format_hashline_output content = stamp_lines (split_lines content)
