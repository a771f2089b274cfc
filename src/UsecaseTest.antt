-- ===== src/UsecaseTest.antt =====
-- internal/usecase/usecasetest/logs.go: the log lines of the use cases' tests, kept as JSON and read back.
-- encoding/json, bytes.TrimSpace and fmt.Sprint are parameters.
pub mod Lines
use overload_party_matchmaki.Prelude.{
  ℕ, suc, ◌==◌, Text, codes, text_eq, Bool, false, ◌&&◌, if◌then◌else◌, List, [], ◌∷◌, ◌++◌, map,
  Option, none, some, ◌≡◌,
}

-- What the package takes from the standard library, with what it documents: an empty text is no JSON, and
-- the white space behind a text that begins and ends with a brace is taken off.
pub record Standard : Type 1 where
  pub Value : Type 0
  -- json.Unmarshal into a map
  pub unmarshal : Text → Option (Text → Option Value)
  -- the text of a JSON string, and the elements of an array
  pub as_text : Value → Option Text
  pub as_list : Value → Option (List Value)
  -- fmt.Sprint, of nil where a key is missing
  pub sprint : Option Value → Text
  pub trim_space : Text → Text
  pub empty_invalid : unmarshal [] ≡ none
  pub trim_empty : trim_space [] ≡ []
  pub trim_object : (s : Text) → trim_space (b'{' ∷ s ++ b'}' ∷ b'\n' ∷ []) ≡ b'{' ∷ s ++ b'}' ∷ []

pub record Logs : Type 0 where
  pub buf : Text

-- The buffer of CaptureLogs.
abbrev pub new_logs : Logs
new_logs = record { buf = [] }

-- Write
unfoldable pub write : Text → Logs → Logs
write p l = record { buf = l.buf ++ p }

abbrev pub count_byte : ℕ → Text → ℕ
count_byte b [] = 0
count_byte b (c ∷ s) = if c == b then suc (count_byte b s) else count_byte b s

-- Count
unfoldable pub count : Logs → ℕ
count l = count_byte b'\n' l.buf

-- `bytes.Split` with a separator of one byte.
abbrev pub begin_with : ℕ → List Text → List Text
begin_with c [] = (c ∷ []) ∷ []
begin_with c (part ∷ parts) = (c ∷ part) ∷ parts

unfoldable pub split : ℕ → Text → List Text
split b [] = [] ∷ []
split b (c ∷ s) = let rest = split b s in if c == b then [] ∷ rest else begin_with c rest

module _ (standard : Standard) where
  open standard use {Value}

  pub record LogEntry : Type 0 where
    pub attrs : Text → Option Value

  -- `attrs[key] == s`
  abbrev pub is_text : Text → Option Value → Bool
  is_text s none = false
  is_text s (some v) = elim (standard.as_text v) [ none ↦ false | some t ↦ text_eq t s ]

  abbrev pub is_match : Text → Text → (Text → Option Value) → Bool
  is_match level message attrs =
      is_text level (attrs (codes "level")) && is_text message (attrs (codes "msg"))

  -- The loop of Entries; `level` is the level's text.
  unfoldable pub entries_of : Text → Text → List Text → List LogEntry
  entries_of level message [] = []
  entries_of level message (line ∷ lines) =
      let rest = entries_of level message lines in
      elim (standard.unmarshal line) [
        | none ↦ rest
        | some attrs ↦
            if is_match level message attrs then record { attrs = attrs } ∷ rest else rest
      ]

  -- Entries
  unfoldable pub entries : Text → Text → Logs → List LogEntry
  unfolding entries_of split
  entries level message l = entries_of level message (split b'\n' (standard.trim_space l.buf))

  -- Text of an entry
  unfoldable pub text : Text → LogEntry → Text
  text key e = standard.sprint (e.attrs key)

  abbrev pub elements : Option Value → List Value
  elements none = []
  elements (some v) = elim (standard.as_list v) [ none ↦ [] | some vs ↦ vs ]

  -- Texts of an entry
  unfoldable pub texts : Text → LogEntry → List Text
  texts key e = map (λ v. standard.sprint (some v)) (elements (e.attrs key))
