-- ===== src/UsecaseTest/Lines.antt =====
-- The lines that internal/usecase/usecasetest/logs.go reads back are those that were written.
use overload_party_matchmaki.Prelude.{
  ℕ, ◌+◌, Text, has_byte, false, List, [], ◌∷◌, ◌++◌, length, All, ◌≡◌, refl, sym, ap, ◌∙◌,
  append_assoc, arith,
}
use overload_party_matchmaki.UsecaseTest.{
  Standard, Logs, new_logs, write, count_byte, count, split, entries_of, entries,
}

-- A line as a JSON handler writes it: an object, with no line feed in it.
pub record IsObject (s : Text) : Type 0 where
  pub inner : Text
  pub braces : s ≡ b'{' ∷ inner ++ b'}' ∷ []
  pub one_line : has_byte b'\n' s ≡ false

-- Each line is one Write, with a line feed behind it.
unfoldable pub write_all : List Text → Logs → Logs
write_all [] l = l
write_all (line ∷ lines) l = write_all lines (write (line ++ b'\n' ∷ []) l)

-- The lines with a line feed between two of them.
joined : Text → List Text → Text
joined line [] = line
joined line (next ∷ lines) = line ++ b'\n' ∷ joined next lines

count-append : (b : ℕ) (s t : Text) → count_byte b (s ++ t) ≡ count_byte b s + count_byte b t
count-append b [] t = omega arith
count-append b (c ∷ s) t = ground (arith, count-append b s t)

count_none : (b : ℕ) (s : Text) → has_byte b s ≡ false → count_byte b s ≡ 0
unfolding has_byte
count_none b [] h = refl
count_none b (c ∷ s) h = ground (arith, count_none b s)

split-append : (b : ℕ) (s t : Text) → has_byte b s ≡ false → split b (s ++ b ∷ t) ≡ s ∷ split b t
unfolding split has_byte
split-append b [] t h = ground arith
split-append b (c ∷ s) t h = ground (arith, split-append b s t)

split_last : (b : ℕ) (s : Text) → has_byte b s ≡ false → split b s ≡ s ∷ []
unfolding split has_byte
split_last b [] h = refl
split_last b (c ∷ s) h = ground (arith, split_last b s)

split-joined :
    (line : Text) (lines : List Text)
    → IsObject line
    → All IsObject lines
    → split b'\n' (joined line lines) ≡ line ∷ lines
unfolding joined
split-joined line [] h hs = split_last b'\n' line h.one_line
split-joined line (next ∷ lines) h hs =
    split-append b'\n' line (joined next lines) h.one_line
    ∙ ap (λ x. line ∷ x) (split-joined next lines hs.0 hs.1)

-- The lines together begin and end with a brace.
joined_inner :
    (line : Text) (lines : List Text)
    → IsObject line
    → All IsObject lines
    → (inner : Text) × (joined line lines ≡ b'{' ∷ inner ++ b'}' ∷ [])
unfolding joined
joined_inner line [] h hs = (h.inner, h.braces)
joined_inner line (next ∷ lines) h hs =
    let (inner, braces) = joined_inner next lines hs.0 hs.1 in
    (h.inner ++ b'}' ∷ b'\n' ∷ b'{' ∷ inner, rw (h.braces, braces) (simp (append_assoc)))

-- What is in the buffer behind some lines.
buf-write_all :
    (line : Text) (lines : List Text) (l : Logs)
    → (write_all (line ∷ lines) l).buf ≡ l.buf ++ (joined line lines ++ b'\n' ∷ [])
unfolding write_all write joined
buf-write_all line [] l = refl
buf-write_all line (next ∷ lines) l =
    buf-write_all next lines (write (line ++ b'\n' ∷ []) l) ∙ simp (append_assoc)

count-write_all :
    (lines : List Text) (l : Logs)
    → All IsObject lines
    → count (write_all lines l) ≡ count l + length lines
unfolding write_all write count
count-write_all [] l h = omega arith
count-write_all (line ∷ lines) l h = omega (
  arith,
  count-write_all lines (write (line ++ b'\n' ∷ []) l) h.1,
  count-append b'\n' l.buf (line ++ b'\n' ∷ []),
  count-append b'\n' line (b'\n' ∷ []),
  count_none b'\n' line h.0.one_line,
)

module _ (standard : Standard) (level message : Text) where
  nothing_written : entries standard level message new_logs ≡ []
  unfolding entries entries_of split
  nothing_written = rw (standard.trim_empty) (rw (standard.empty_invalid) refl)

  trimmed :
      (line : Text) (lines : List Text)
      → IsObject line
      → All IsObject lines
      → standard.trim_space (joined line lines ++ b'\n' ∷ []) ≡ joined line lines
  trimmed line lines h hs =
      let (inner, braces) = joined_inner line lines h hs in
      ap standard.trim_space (rw (braces) (simp (append_assoc)))
      ∙ standard.trim_object inner
      ∙ sym braces

  -- The log of a test loses no line: after any number of lines, each an object on one line, Count is their
  -- number, and Entries looks at each of them, in the order in which they were written, and at nothing
  -- else.
  pub entries-write_all :
      (lines : List Text)
      → All IsObject lines
      → (count (write_all lines new_logs) ≡ length lines)
        × (entries standard level message (write_all lines new_logs)
            ≡ entries_of standard level message lines)
  unfolding entries write_all entries_of count
  entries-write_all [] h = (refl, nothing_written)
  entries-write_all (line ∷ lines) h = (
    omega (arith, count-write_all (line ∷ lines) new_logs h),
    rw (buf-write_all line lines new_logs) (
        ap (λ x. entries_of standard level message x)
          (ap (split b'\n') (trimmed line lines h.0 h.1) ∙ split-joined line lines h.0 h.1)),
  )
