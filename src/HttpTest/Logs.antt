-- ===== src/HttpTest/Logs.antt =====
-- internal/adapter/httphandler/httphandlertest/logs.go: the handler of log/slog that keeps the records of
-- a test. A value is the text that `Value.String` gives; a level is its number.
use overload_party_matchmaki.Prelude.{
  ℤ, leb_ℤ, Text, text_eq, Bool, true, not, ◌&&◌, Bool-cases, if◌then◌else◌, List, [], ◌∷◌, ◌++◌,
  Option, none, some, keep, ◌≡◌, refl, ap, ◌∙◌, sym, append_assoc, inl, inr,
}

-- A key and the text of its value.
abbrev pub Attr : Type 0
Attr = Text × Text

-- A Go map: a key has the value that was set last.
abbrev pub get : Text → List Attr → Option Text
get key [] = none
get key ((k, v) ∷ attrs) = if text_eq k key then some v else get key attrs

abbrev pub put : Attr → List Attr → List Attr
put a attrs = a ∷ attrs

pub record LogRecord : Type 0 where
  pub level : ℤ
  pub message : Text
  pub attrs : List Attr

pub record LogCapture : Type 0 where
  pub records : List LogRecord

abbrev pub new_capture : LogCapture
new_capture = record { records = [] }

abbrev pub same_level : ℤ → ℤ → Bool
same_level a b = leb_ℤ a b && leb_ℤ b a

-- append
unfoldable pub append : LogRecord → LogCapture → LogCapture
append r c = record { records = c.records ++ r ∷ [] }

-- recordsExcluding
unfoldable pub records_excluding : (LogRecord → Bool) → LogCapture → List LogRecord
records_excluding is_excluded c = keep (λ r. not (is_excluded r)) c.records

-- RecordsAt
unfoldable pub records_at : ℤ → LogCapture → List LogRecord
unfolding records_excluding
records_at level = records_excluding (λ r. not (same_level r.level level))

-- RecordsWithMessage
unfoldable pub records_with_message : Text → LogCapture → List LogRecord
unfolding records_excluding
records_with_message message = records_excluding (λ r. not (text_eq r.message message))

-- The handler, which points to its capture.
pub record CaptureHandler : Type 0 where
  pub attrs : List Attr

-- Enabled
unfoldable pub enabled : ℤ → Bool
enabled level = true

-- The loops of Handle over attributes.
unfoldable pub put_all : List Attr → List Attr → List Attr
put_all [] kept = kept
put_all (a ∷ attrs) kept = put_all attrs (put a kept)

-- Handle, for a record with a level, a message and attributes.
unfoldable pub handle : CaptureHandler → ℤ → Text → List Attr → LogCapture → LogCapture
unfolding put_all append
handle h level message attrs c =
    append (record { level = level; message = message; attrs = put_all attrs (put_all h.attrs []) })
      c

-- WithAttrs
unfoldable pub with_attrs : List Attr → CaptureHandler → CaptureHandler
with_attrs attrs h = record { attrs = h.attrs ++ attrs }

-- WithGroup
unfoldable pub with_group : Text → CaptureHandler → CaptureHandler
with_group name h = h

-- The value of a key that comes last among the attributes.
abbrev pub or_before : Option Text → Option Text → Option Text
or_before none earlier = earlier
or_before (some v) earlier = some v

abbrev pub last_of : Text → List Attr → Option Text
last_of key [] = none
last_of key ((k, v) ∷ attrs) =
    or_before (last_of key attrs) (if text_eq k key then some v else none)

later :
    (k v : Text) (earlier : Option Text) (key : Text) (last : Option Text)
    → or_before last (if text_eq k key then some v else earlier)
      ≡ or_before (or_before last (if text_eq k key then some v else none)) earlier
later k v earlier key (some x) = refl
later k v earlier key none = elim (Bool-cases (text_eq k key)) [
  | inl same ↦ rw (same) refl
  | inr other ↦ rw (other) refl
]

get-put_all :
    (key : Text) (attrs kept : List Attr)
    → get key (put_all attrs kept) ≡ or_before (last_of key attrs) (get key kept)
unfolding put_all
get-put_all key [] kept = refl
get-put_all key ((k, v) ∷ attrs) kept =
    get-put_all key attrs (put (k, v) kept) ∙ later k v (get key kept) key (last_of key attrs)

at_end : (o : Option Text) → or_before o none ≡ o
at_end none = refl
at_end (some v) = refl

put_all-append : (xs ys kept : List Attr) → put_all (xs ++ ys) kept ≡ put_all ys (put_all xs kept)
unfolding put_all
put_all-append [] ys kept = refl
put_all-append (x ∷ xs) ys kept = put_all-append xs ys (put x kept)

-- A record at the end of a list, and a test.
keep_last :
    (b : LogRecord → Bool) (rs : List LogRecord) (r : LogRecord)
    → keep (λ x. not (not (b x))) (rs ++ r ∷ [])
      ≡ keep (λ x. not (not (b x))) rs ++ (if b r then r ∷ [] else [])
keep_last b [] r = elim (Bool-cases (b r)) [
  | inl yes_r ↦ rw (yes_r) refl
  | inr no_r ↦ rw (no_r) refl
]
keep_last b (x ∷ rs) r = elim (Bool-cases (b x)) [
  | inl yes_x ↦ rw (yes_x) (ap (λ l. x ∷ l) (keep_last b rs r))
  | inr no_x ↦ rw (no_x) (keep_last b rs r)
]

-- The record that a handler with more attributes makes.
abbrev pub recorded : CaptureHandler → List Attr → ℤ → Text → List Attr → LogRecord
recorded h more level message attrs = record {
  level = level;
  message = message;
  attrs = put_all (h.attrs ++ (more ++ attrs)) [];
}

handled :
    (h : CaptureHandler) (more attrs : List Attr) (level : ℤ) (message : Text) (c : LogCapture)
    → (handle (with_attrs more h) level message attrs c).records
      ≡ c.records ++ recorded h more level message attrs ∷ []
unfolding handle with_attrs append
handled h more attrs level message c =
    ap (λ x. c.records ++ record { level = level; message = message; attrs = x } ∷ [])
      (sym (put_all-append (h.attrs ++ more) attrs [])
        ∙ ap (λ x. put_all x []) (append_assoc h.attrs more attrs))

-- The capture loses no record and keeps their order: behind one more record, which any handler has
-- handled, whatever attributes it was given in how many steps, the lists by level and by message have
-- that record at their end if it has the level or the message, and are otherwise as they were.
-- A key of the record has the value that was given to it last, and those of the record count as later
-- than those of the handler.
pub handle-records :
    (h : CaptureHandler) (more attrs : List Attr) (level wanted : ℤ) (message text key : Text)
    (c : LogCapture)
    → (records_at wanted (handle (with_attrs more h) level message attrs c)
        ≡ records_at wanted c
          ++ (if same_level level wanted then recorded h more level message attrs ∷ [] else []))
      × (records_with_message text (handle (with_attrs more h) level message attrs c)
          ≡ records_with_message text c
            ++ (if text_eq message text then recorded h more level message attrs ∷ [] else []))
      × (get key (recorded h more level message attrs).attrs
          ≡ last_of key (h.attrs ++ (more ++ attrs)))
unfolding records_at records_with_message records_excluding
handle-records h more attrs level wanted message text key c =
    let made = handled h more attrs level message c in
    let r = recorded h more level message attrs in
    (
      rw (made) (keep_last (λ x. same_level x.level wanted) c.records r),
      rw (made) (keep_last (λ x. text_eq x.message text) c.records r),
      get-put_all key (h.attrs ++ (more ++ attrs)) []
          ∙ at_end (last_of key (h.attrs ++ (more ++ attrs))),
    )
