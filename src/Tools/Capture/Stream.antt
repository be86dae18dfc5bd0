-- ===== src/Tools/Capture/Stream.antt =====
-- A capture is a function of the bytes written, whatever the chunks in which they arrived.
use sandbar.Base.{
  ℕ, zero, suc, ◌+◌, ◌-◌, ◌≤◌, ◌<◌, Str, ltb, leb, if◌then◌else◌, true, false, length, take, drop,
  List, [], ◌∷◌, ◌++◌, ◌≡◌, refl, sym, ap, ◌∙◌, arith, length-append, drop-drop, append_assoc,
  append-nil, length-drop, length-take, Bool-cases, inl, inr, ◌⊎◌, take-append_short,
  drop-append_short, drop-append_long, take-append_long, take_all,
}
use sandbar.Tools.Capture.{
  Decoder, BoundedCapture, new_bounded_capture, scan_runes, feed_utf8, grow_prefix, grow_tail,
  write, write_all, legacy_shell_output_bytes,
}

-- What the code relies on: a full rune stays the same when bytes follow it, and it has at least one
-- byte and no more than there are.
pub record DecoderLaws (d : Decoder) : Type 0 where
  pub full_rune-append : (s t : Str) → d.full_rune s ≡ true → d.full_rune (s ++ t) ≡ true
  pub size-append : (s t : Str) → d.full_rune s ≡ true → d.size (s ++ t) ≡ d.size s
  pub is_error-append : (s t : Str) → d.full_rune s ≡ true → d.is_error (s ++ t) ≡ d.is_error s
  pub size_positive : (s : Str) → d.full_rune s ≡ true → 0 < d.size s
  pub size_bounded : (s : Str) → d.full_rune s ≡ true → d.size s ≤ length s

-- The last `n` bytes.
abbrev pub last_bytes : ℕ → Str → Str
last_bytes n s = drop (length s - n) s

grow_prefix-take :
    (all p : Str)
    → grow_prefix (take legacy_shell_output_bytes all) p ≡ take legacy_shell_output_bytes (all ++ p)
unfolding grow_prefix
grow_prefix-take all p =
    elim (Bool-cases
      (ltb (length (take legacy_shell_output_bytes all)) legacy_shell_output_bytes)) [
        | inl e ↦
            let short : length all < legacy_shell_output_bytes =
              ground (arith, length-take legacy_shell_output_bytes all) in
            let whole : take legacy_shell_output_bytes all ≡ all =
              take_all legacy_shell_output_bytes all (omega arith) in
            let long : take legacy_shell_output_bytes (all ++ p)
                ≡ all ++ take (legacy_shell_output_bytes - length all) p =
              take-append_long legacy_shell_output_bytes all p (omega arith) in
            rw (e, whole, long) (ap (◌++◌ all) (clipped (legacy_shell_output_bytes - length all)))
        | inr e ↦
            let full : legacy_shell_output_bytes ≤ length all =
              ground (arith, length-take legacy_shell_output_bytes all) in
            rw e (sym (take-append_short legacy_shell_output_bytes all p full))
      ]
  where
    clipped : (n : ℕ) → take (if ltb (length p) n then length p else n) p ≡ take n p
    clipped n = elim (Bool-cases (ltb (length p) n)) [
      | inl e ↦
          let le : length p ≤ n = ground arith in
          rw e (take_all (length p) p (omega arith) ∙ sym (take_all n p le))
      | inr e ↦ rw e refl
    ]

grow_tail-last :
    (limit : ℕ) (all p : Str)
    → grow_tail limit (last_bytes limit all) p ≡ last_bytes limit (all ++ p)
unfolding grow_tail
grow_tail-last limit all p = elim (Bool-cases (leb limit (length p))) [
  | inl e ↦
      let room : limit ≤ length p = ground arith in
      let rest : length all + length p - limit - length all ≡ length p - limit =
        omega (arith, room) in
      rw
        (
          e,
          length-append all p,
          drop-append_long (length all + length p - limit) all p (omega (arith, room)),
          rest,
        )
        refl
  | inr e ↦
      let over : length p < limit = ground arith in
      rw
        (
          e,
          length-append all p,
          drop-append_short (length all + length p - limit) all p (omega (arith, over)),
        )
        (by_room over (Bool-cases (ltb limit (length (last_bytes limit all) + length p))))
]
  where
    by_room :
        length p < limit
        → (ltb limit (length (last_bytes limit all) + length p) ≡ true)
          ⊎ (ltb limit (length (last_bytes limit all) + length p) ≡ false)
        → (if ltb limit (length (last_bytes limit all) + length p)
            then drop (length (last_bytes limit all) + length p - limit) (last_bytes limit all) ++ p
            else last_bytes limit all ++ p)
          ≡ drop (length all + length p - limit) all ++ p
    by_room over (inl e) =
        let more : limit < length (last_bytes limit all) + length p = ground arith in
        let n : length all - limit + (length (last_bytes limit all) + length p - limit)
            ≡ length all + length p - limit =
          omega (arith, over, more, length-drop (length all - limit) all) in
        rw e (
          rw
            (
              drop-drop (length (last_bytes limit all) + length p - limit) (length all - limit) all,
              n,
            )
            refl)
    by_room over (inr e) =
        let less : length (last_bytes limit all) + length p ≤ limit = ground arith in
        let n : length all - limit ≡ length all + length p - limit =
          omega (arith, over, less, length-drop (length all - limit) all) in
        rw e (rw n refl)

-- What is left after the first rune fits into less fuel.
after-rune :
    (d : Decoder)
    → DecoderLaws d
    → (c n : ℕ) (s : Str) → suc (length s) ≤ suc n
    → d.full_rune (c ∷ s) ≡ true
    → length (drop (d.size (c ∷ s)) (c ∷ s)) ≤ n
after-rune d laws c n s small full =
    omega (arith, small, length-drop (d.size (c ∷ s)) (c ∷ s), laws.size_positive (c ∷ s) full)

-- The result does not depend on the fuel, once it is enough.
scan_runes-fuel :
    (d : Decoder)
    → DecoderLaws d
    → (n m : ℕ) (s : Str) → length s ≤ n
    → length s ≤ m
    → scan_runes d n s ≡ scan_runes d m s
unfolding scan_runes
scan_runes-fuel d laws n m [] small large = refl
scan_runes-fuel d laws zero m (c ∷ s) small large = ground arith
scan_runes-fuel d laws (suc n) zero (c ∷ s) small large = ground arith
scan_runes-fuel d laws (suc n) (suc m) (c ∷ s) small large =
    elim (Bool-cases (d.full_rune (c ∷ s))) [
      | inr e ↦ rw e refl
      | inl e ↦ rw e (
          ap (λ r. if d.is_error (c ∷ s) then (true, []) else r)
            (scan_runes-fuel d laws n m (drop (d.size (c ∷ s)) (c ∷ s))
              (after-rune d laws c n s small e) (after-rune d laws c m s large e)))
    ]

-- A scan that goes on after more bytes arrive is the scan of all of them.
scan_runes-resume :
    (d : Decoder)
    → DecoderLaws d
    → (n m : ℕ) (s p : Str) → length s ≤ n
    → length (s ++ p) ≤ m
    → feed_utf8 d (scan_runes d n s) p ≡ scan_runes d m (s ++ p)
unfolding feed_utf8 scan_runes
scan_runes-resume d laws n m [] p small large =
    scan_runes-fuel d laws (length p) m p (omega arith) large
scan_runes-resume d laws zero m (c ∷ s) p small large = ground arith
scan_runes-resume d laws (suc n) zero (c ∷ s) p small large = ground arith
scan_runes-resume d laws (suc n) (suc m) (c ∷ s) p small large =
    elim (Bool-cases (d.full_rune (c ∷ s))) [
      | inr e ↦ rw e (
          scan_runes-fuel d laws (length ((c ∷ s) ++ p)) (suc m) ((c ∷ s) ++ p) (omega arith) large)
      | inl e ↦
          let next : feed_utf8 d (scan_runes d n (drop (d.size (c ∷ s)) (c ∷ s))) p
              ≡ scan_runes d m (drop (d.size (c ∷ s)) (c ∷ s) ++ p) =
            scan_runes-resume d laws n m (drop (d.size (c ∷ s)) (c ∷ s)) p
              (after-rune d laws c n s small e) (fits e) in
          by_error e next (Bool-cases (d.is_error (c ∷ s)))
    ]
  where
    fits : d.full_rune (c ∷ s) ≡ true → length (drop (d.size (c ∷ s)) (c ∷ s) ++ p) ≤ m
    fits e = omega (
      arith,
      large,
      length-append (drop (d.size (c ∷ s)) (c ∷ s)) p,
      length-append s p,
      length-drop (d.size (c ∷ s)) (c ∷ s),
      laws.size_positive (c ∷ s) e,
    )

    by_error :
        d.full_rune (c ∷ s) ≡ true
        → feed_utf8 d (scan_runes d n (drop (d.size (c ∷ s)) (c ∷ s))) p
          ≡ scan_runes d m (drop (d.size (c ∷ s)) (c ∷ s) ++ p)
        → (d.is_error (c ∷ s) ≡ true) ⊎ (d.is_error (c ∷ s) ≡ false)
        → feed_utf8 d (scan_runes d (suc n) (c ∷ s)) p ≡ scan_runes d (suc m) ((c ∷ s) ++ p)
    by_error e next (inl f) =
        rw (laws.full_rune-append (c ∷ s) p e, laws.is_error-append (c ∷ s) p e, e, f) refl
    by_error e next (inr f) =
        rw
          (
            laws.full_rune-append (c ∷ s) p e,
            laws.is_error-append (c ∷ s) p e,
            e,
            f,
            laws.size-append (c ∷ s) p e,
            drop-append_short (d.size (c ∷ s)) (c ∷ s) p (laws.size_bounded (c ∷ s) e),
          )
          next

-- The capture shows the bytes `all`: their first, their last, their number, and how far they are
-- valid UTF-8.
pub record Shows (d : Decoder) (limit : ℕ) (all : Str) (b : BoundedCapture) : Type 0 where
  pub limit_same : b.limit ≡ limit
  pub first : b.prefix ≡ take legacy_shell_output_bytes all
  pub last : b.tail ≡ last_bytes limit all
  pub count : b.total ≡ length all
  pub utf8 : (b.invalid, b.pending) ≡ scan_runes d (length all) all

write-Shows :
    (d : Decoder)
    → DecoderLaws d
    → (limit : ℕ) (all p : Str) (b : BoundedCapture) → Shows d limit all b
    → Shows d limit (all ++ p) (write d p b)
unfolding write
write-Shows d laws limit all p b shows = record {
  limit_same = shows.limit_same;
  first = ap (λ s. grow_prefix s p) shows.first ∙ grow_prefix-take all p;
  last = rw (shows.limit_same, shows.last) (grow_tail-last limit all p);
  count = rw (shows.count) (sym (length-append all p));
  utf8 =
      ap (λ s. feed_utf8 d s p) shows.utf8
      ∙ scan_runes-resume d laws (length all) (length (all ++ p)) all p (omega arith) (omega arith);
}

abbrev pub concat_chunks : List Str → Str
concat_chunks [] = []
concat_chunks (p ∷ ps) = p ++ concat_chunks ps

write_all-from :
    (d : Decoder)
    → DecoderLaws d
    → (limit : ℕ) (all : Str) (ps : List Str) (b : BoundedCapture) → Shows d limit all b
    → Shows d limit (all ++ concat_chunks ps) (write_all d ps b)
unfolding write_all
write_all-from d laws limit all [] b shows = rw (append-nil all) shows
write_all-from d laws limit all (p ∷ ps) b shows =
    rw (sym (append_assoc all p (concat_chunks ps))) (
      write_all-from d laws limit (all ++ p) ps (write d p b)
        (write-Shows d laws limit all p b shows))

-- However a command's output is cut into writes, a new capture shows the whole of it after them: the
-- first 16384 bytes, the last `limit` bytes, the number of all bytes, and the flag and the waiting
-- bytes of one scan of all of them, if the decoder meets its laws and the limit is positive.
pub write_all-Shows :
    (d : Decoder)
    → DecoderLaws d
    → (limit : ℕ) (ps : List Str) → 0 < limit
    → Shows d limit (concat_chunks ps) (write_all d ps (new_bounded_capture limit))
unfolding new_bounded_capture scan_runes
write_all-Shows d laws limit ps positive =
    write_all-from d laws limit [] ps (new_bounded_capture limit) (record {
      limit_same = ground arith;
      first = refl;
      last = ground arith;
      count = refl;
      utf8 = refl;
    })
