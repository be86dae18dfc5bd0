-- ===== src/Tools/Capture.antt =====
-- internal/tools/jobs.go: `boundedCapture`, the bounded record of a command's output.
-- `utf8.FullRune` and `utf8.DecodeRune` are the parameter `decoder`: the size of the first rune and
-- whether it is the error of size one.
pub mod Stream
use sandbar.Base.{
  ℕ, zero, suc, ◌+◌, ◌-◌, ◌≤◌, ◌<◌, Str, codes, ltb, leb, ◌==◌, if◌then◌else◌, Bool, true, false,
  length, take, drop, is_nil, List, [], ◌∷◌, ◌++◌, ◌≡◌, not, ◌&&◌, ◌||◌,
}

pub record Decoder : Type 0 where
  pub full_rune : Str → Bool
  pub size : Str → ℕ
  pub is_error : Str → Bool

abbrev pub default_job_output_bytes : ℕ
default_job_output_bytes = 65536

abbrev pub legacy_shell_output_bytes : ℕ
legacy_shell_output_bytes = 16384

pub record BoundedCapture : Type 0 where
  pub limit : ℕ
  pub prefix : Str
  pub tail : Str
  pub total : ℕ
  pub invalid : Bool
  pub pending : Str

unfoldable pub new_bounded_capture : ℕ → BoundedCapture
new_bounded_capture limit = record {
  limit = if limit == 0 then default_job_output_bytes else limit;
  prefix = [];
  tail = [];
  total = 0;
  invalid = false;
  pending = [];
}

-- The loop of `feedUTF8Locked` on fuel: whether a byte is invalid, and the bytes that wait for the
-- rest of their rune. A rune has at least one byte, so the number of bytes is enough fuel.
unfoldable pub scan_runes : Decoder → ℕ → Str → Bool × Str
scan_runes d fuel [] = (false, [])
scan_runes d zero (c ∷ bytes) = (false, c ∷ bytes)
scan_runes d (suc fuel) (c ∷ bytes) =
    let rest = scan_runes d fuel (drop (d.size (c ∷ bytes)) (c ∷ bytes)) in
    if not (d.full_rune (c ∷ bytes))
    then (false, c ∷ bytes)
    else if d.is_error (c ∷ bytes)
    then (true, [])
    else rest

-- `feedUTF8Locked` on the flag and the waiting bytes.
unfoldable pub feed_utf8 : Decoder → Bool × Str → Str → Bool × Str
feed_utf8 d (true, pending) p = (true, pending)
feed_utf8 d (false, pending) p = scan_runes d (length (pending ++ p)) (pending ++ p)

-- The prefix after a write.
unfoldable pub grow_prefix : Str → Str → Str
grow_prefix prefix p =
    if ltb (length prefix) legacy_shell_output_bytes
    then prefix
      ++ take
          (let remaining = legacy_shell_output_bytes - length prefix in
            if ltb (length p) remaining then length p else remaining)
          p
    else prefix

-- The tail after a write: only the end of a long one, or the old tail, shortened at its front by what
-- does not fit, and the whole of a short one.
unfoldable pub grow_tail : ℕ → Str → Str → Str
grow_tail limit tail p =
    if leb limit (length p)
    then drop (length p - limit) p
    else if ltb limit (length tail + length p)
    then drop (length tail + length p - limit) tail ++ p
    else tail ++ p

-- `Write`
unfoldable pub write : Decoder → Str → BoundedCapture → BoundedCapture
write d p b =
    let fed = feed_utf8 d (b.invalid, b.pending) p in
    record {
      limit = b.limit;
      prefix = grow_prefix b.prefix p;
      tail = grow_tail b.limit b.tail p;
      total = b.total + length p;
      invalid = fed.0;
      pending = fed.1;
    }

unfoldable pub write_all : Decoder → List Str → BoundedCapture → BoundedCapture
write_all d [] b = b
write_all d (p ∷ ps) b = write_all d ps (write d p b)

module _ (digits : ℕ → Str) (to_valid_utf8 : Str → Str) where
  abbrev suppressed : ℕ → Str
  suppressed total = codes "[binary output suppressed: " ++ digits total ++ codes " bytes]"

  -- `legacyString`
  unfoldable pub legacy_string : BoundedCapture → Str
  legacy_string b =
      if b.total == 0
      then []
      else if b.invalid || not (is_nil b.pending)
      then suppressed b.total
      else if ltb (length b.prefix) b.total
      then b.prefix
        ++ codes "\n[...truncated "
        ++ digits (b.total - length b.prefix)
        ++ codes " bytes...]"
      else b.prefix

  -- What `tailString` returns: the text, the bytes written, and whether some are missing or invalid.
  pub record Tail : Type 0 where
    pub value : Str
    pub bytes : ℕ
    pub truncated : Bool
    pub binary : Bool

  -- The bytes that `tailString` looks at.
  unfoldable pub tail_data : ℕ → BoundedCapture → Str
  tail_data max_bytes b =
      let bound = if max_bytes == 0 || ltb b.limit max_bytes then b.limit else max_bytes in
      drop (length b.tail - bound) b.tail

  unfoldable pub tail_string : ℕ → BoundedCapture → Tail
  tail_string max_bytes b = record {
    value = if b.invalid then suppressed b.total else to_valid_utf8 (tail_data max_bytes b);
    bytes = b.total;
    truncated = ltb (length (tail_data max_bytes b)) b.total;
    binary = b.invalid;
  }
