-- ===== src/Updater/Messages.antt =====
-- internal/application/updater/message_renderer.go: `MessageRenderer.render` and its checks. A parsed
-- template is the function from the data to its output, or to the error of `Execute`.
pub mod Fit
use image_updater.Prelude.{ℕ, Bool, not, ◌&&◌, ◌||◌, [], ◌==◌, ltb, leb, any, length, if◌then◌else◌}
use image_updater.Text.{Text, is_empty}
use image_updater.Text.Utf8.{runes, rune_count, trim_space}
use image_updater.Model.Errors.{plain, wrap, Result, ok, err, ◌>>=◌}
use image_updater.Updater.Body.{escape_markdown}

-- messageTemplateData
pub record MessageTemplateData : Type 0 where
  pub environment : Text
  pub image_name : Text
  pub image_repository : Text
  pub image : Text
  pub image_tag : Text
  pub default_body : Text

-- renderedMessages
pub record RenderedMessages : Type 0 where
  pub pull_request_title : Text
  pub pull_request_body : Text
  pub commit_message : Text

-- MessageRenderer
pub record MessageRenderer : Type 0 where
  pub pull_request_title : MessageTemplateData → Result Text
  pub pull_request_body : MessageTemplateData → Result Text
  pub commit_message : MessageTemplateData → Result Text

abbrev pub max_rendered_message_bytes : ℕ
max_rendered_message_bytes = 1048576

abbrev pub max_pull_request_title_runes : ℕ
max_pull_request_title_runes = 256

abbrev pub max_commit_message_runes : ℕ
max_commit_message_runes = 4096

abbrev pub max_pull_request_body_runes : ℕ
max_pull_request_body_runes = 65536

-- executeMessageTemplate: the writer refuses what would pass the limit
unfoldable pub execute_message_template :
    (MessageTemplateData → Result Text) → MessageTemplateData → Result Text
execute_message_template template input = do
  output ← template input
  if ltb max_rendered_message_bytes (length output) then err (plain []) else ok output

-- unicode.IsControl
unfoldable pub is_control : ℕ → Bool
is_control c = ltb c 0x20 || (leb 0x7F c && ltb c 0xA0)

-- The line and paragraph separators.
unfoldable pub is_separator : ℕ → Bool
is_separator c = c == 0x2028 || c == 0x2029

-- A rune that a single line may not hold.
unfoldable pub breaks_line : ℕ → Bool
unfolding is_control is_separator
breaks_line c = is_control c || is_separator c

-- A rune that a body may not hold.
unfoldable pub breaks_body : ℕ → Bool
unfolding is_control is_separator
breaks_body c =
    (is_control c && (not (c == 0x0A) && (not (c == 0x0D) && not (c == 0x09)))) || is_separator c

-- The tests of `validateSingleLine` and `validateBody`.
check_text : (ℕ → Bool) → ℕ → Text → Result (Unit {0})
unfolding is_empty trim_space rune_count runes
check_text breaks limit value =
    if is_empty (trim_space value)
    then err (plain [])
    else if ltb limit (rune_count value)
    then err (plain [])
    else if any breaks (runes value)
    then err (plain [])
    else ok tt

-- validateSingleLine
unfoldable pub validate_single_line : Text → ℕ → Result (Unit {0})
unfolding check_text breaks_line
validate_single_line value max_runes = check_text breaks_line max_runes value

-- validateBody
unfoldable pub validate_body : Text → Result (Unit {0})
unfolding check_text breaks_body
validate_body value = check_text breaks_body max_pull_request_body_runes value

-- The data of the body's template: all but the default body is escaped.
unfoldable pub body_data : MessageTemplateData → MessageTemplateData
unfolding escape_markdown
body_data d = record d {
  environment = escape_markdown d.environment;
  image_name = escape_markdown d.image_name;
  image_repository = escape_markdown d.image_repository;
  image = escape_markdown d.image;
  image_tag = escape_markdown d.image_tag;
}

-- An error of a template gets the name of the message in front.
named : Result Text → Result Text
named (ok t) = ok t
named (err e) = err (wrap [] e)

-- MessageRenderer.render
unfoldable pub render : MessageRenderer → MessageTemplateData → Result RenderedMessages
unfolding named execute_message_template validate_single_line validate_body body_data
render r d = do
  title ← named (execute_message_template r.pull_request_title d)
  _ ← validate_single_line title max_pull_request_title_runes
  commit ← named (execute_message_template r.commit_message d)
  _ ← validate_single_line commit max_commit_message_runes
  body ← named (execute_message_template r.pull_request_body (body_data d))
  _ ← validate_body body
  ok (record { pull_request_title = title; pull_request_body = body; commit_message = commit })
