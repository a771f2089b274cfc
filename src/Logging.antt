-- ===== src/Logging.antt =====
-- cmd/server/main.go, newCloudLoggingHandler: how the attributes of a log line are changed for Cloud
-- Logging. log/slog is the caller; a value that is no level is a text here.
use overload_party_matchmaki.Prelude.{ℤ, pos, leb_ℤ, Text, codes, text_eq, if◌then◌else◌}

pub data Value : Type 0 where
  level_value : ℤ → Value
  text_value : Text → Value

pub record Attr : Type 0 where
  pub key : Text
  pub value : Value

-- slog.LevelInfo, slog.LevelWarn and slog.LevelError
abbrev pub level_info : ℤ
level_info = pos 0

abbrev pub level_warn : ℤ
level_warn = pos 4

abbrev pub level_error : ℤ
level_error = pos 8

unfoldable pub severity : ℤ → Text
severity level =
    if leb_ℤ level_error level
    then codes "ERROR"
    else if leb_ℤ level_warn level
    then codes "WARNING"
    else if leb_ℤ level_info level
    then codes "INFO"
    else codes "DEBUG"

-- The key of the message, which the new key of a level is not.
unfoldable pub rename_message : Attr → Attr
rename_message a = if text_eq a.key (codes "msg") then record a { key = codes "message" } else a

unfoldable pub replace_level : Text → Value → Attr
unfolding severity rename_message
replace_level key (text_value s) = record { key = key; value = text_value s }
replace_level key (level_value level) =
    rename_message (record { key = codes "severity"; value = text_value (severity level) })

-- ReplaceAttr
unfoldable pub replace_attr : Attr → Attr
unfolding replace_level rename_message
replace_attr a =
    if text_eq a.key (codes "level") then replace_level a.key a.value else rename_message a
