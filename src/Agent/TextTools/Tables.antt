-- ===== src/Agent/TextTools/Tables.antt =====
-- internal/agent/text_tool_parser.go: the names that a text call may use.
use sandbar.Base.{
  ℕ, Str, codes, leb, ◌==◌, Bool, true, false, none, some, List, [], ◌∷◌, ◌&&◌, ◌||◌, Map, lookup,
}

-- `toolNameAliases`
abbrev pub tool_name_aliases : Map Str
tool_name_aliases =
    (codes "read", codes "file_read")
    ∷ (codes "read_file", codes "file_read")
    ∷ (codes "bash", codes "shell_exec")
    ∷ (codes "execute", codes "shell_exec")
    ∷ (codes "execute_bash", codes "shell_exec")
    ∷ (codes "run", codes "shell_exec")
    ∷ (codes "write", codes "file_write")
    ∷ (codes "write_file", codes "file_write")
    ∷ (codes "search", codes "search_files")
    ∷ (codes "grep", codes "search_files")
    ∷ (codes "find", codes "search_files")
    ∷ (codes "list_dir", codes "search_files")
    ∷ (codes "list_files", codes "search_files")
    ∷ (codes "web_search", codes "web_search")
    ∷ (codes "web_fetch", codes "web_fetch")
    ∷ (codes "fetch", codes "web_fetch")
    ∷ (codes "shell_exec", codes "shell_exec")
    ∷ (codes "file_read", codes "file_read")
    ∷ (codes "file_write", codes "file_write")
    ∷ (codes "file_append", codes "file_append")
    ∷ (codes "file_patch", codes "file_patch")
    ∷ (codes "git_status", codes "git_status")
    ∷ (codes "git_diff", codes "git_diff")
    ∷ (codes "git_add", codes "git_add")
    ∷ (codes "git_commit", codes "git_commit")
    ∷ (codes "search_files", codes "search_files")
    ∷ (codes "todo", codes "todo")
    ∷ (codes "todo_write", codes "todo")
    ∷ (codes "diff", codes "diff")
    ∷ (codes "patch", codes "file_patch")
    ∷ []

-- `registeredTextToolArgs`
abbrev pub registered_text_tool_args : Map (List Str)
registered_text_tool_args =
    (codes "file_read", codes "path" ∷ codes "max_bytes" ∷ [])
    ∷ (codes "file_write", codes "path" ∷ codes "content" ∷ codes "expected_sha256" ∷ [])
    ∷ (codes "file_append", codes "path" ∷ codes "content" ∷ codes "expected_sha256" ∷ [])
    ∷ (
      codes "file_patch",
      codes "path" ∷ codes "old_str" ∷ codes "new_str" ∷ codes "expected_sha256" ∷ [],
    )
    ∷ (codes "shell_exec", codes "command" ∷ codes "timeout_seconds" ∷ codes "async" ∷ [])
    ∷ (
      codes "job",
      codes "action" ∷ codes "job_id" ∷ codes "max_bytes" ∷ codes "timeout_seconds" ∷ [],
    )
    ∷ (
      codes "git",
      codes "action" ∷ codes "repo_path" ∷ codes "staged" ∷ codes "paths" ∷ codes "message" ∷ [],
    )
    ∷ (codes "web_search", codes "query" ∷ [])
    ∷ (
      codes "search_files",
      codes "pattern" ∷ codes "path" ∷ codes "target" ∷ codes "file_glob" ∷ codes "limit" ∷ [],
    )
    ∷ (codes "web_fetch", codes "url" ∷ codes "max_chars" ∷ [])
    ∷ (codes "todo", codes "action" ∷ codes "items" ∷ [])
    ∷ (codes "delegate_task", codes "goal" ∷ codes "context" ∷ [])
    ∷ (codes "resume_task", codes "task_id" ∷ [])
    ∷ (codes "image_generate", codes "prompt" ∷ [])
    ∷ (codes "vision_analyze", codes "image_path" ∷ [])
    ∷ []

-- `resolveToolName`
unfoldable pub resolve_tool_name : Str → Str
resolve_tool_name name = elim (lookup name tool_name_aliases) [
  | none ↦ name
  | some canonical ↦ canonical
]

unfoldable pub is_ident_start : ℕ → Bool
is_ident_start c = ((leb 65 c && leb c 90) || (leb 97 c && leb c 122)) || c == 95

unfoldable pub is_ident_rest : Str → Bool
is_ident_rest [] = true
is_ident_rest (c ∷ s) = (is_ident_start c || (leb 48 c && leb c 57)) && is_ident_rest s

-- `toolIdentRE`
unfoldable pub is_tool_ident : Str → Bool
is_tool_ident [] = false
is_tool_ident (c ∷ s) = is_ident_start c && is_ident_rest s
