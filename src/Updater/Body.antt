-- ===== src/Updater/Body.antt =====
-- internal/application/updater/pull_request_body.go: the description of a pull request.
use image_updater.Prelude.{
  ℕ, zero, suc, ◌/◌, ◌%◌, ◌+◌, ◌*◌, Bool, not, ◌&&◌, ◌||◌, List, [], ◌∷◌, ◌++◌, if◌then◌else◌, ltb,
  leb, length, take, ◌≡◌, refl,
}
use Prim.Native.String.{String}
use image_updater.Text.{Text, codes, is_empty, has_byte}
use image_updater.Text.Utf8.{encode, encode_rune, runes}
use image_updater.Text.Split.{join}
use image_updater.Std.{Std}
use image_updater.Label.Labels.{ImageLabels, commit_url_of}

-- The UTF-8 bytes of a literal.
abbrev pub utf8 : String → Text
unfolding encode
utf8 s = encode (codes s)

set_text : Text → Bool
unfolding is_empty
set_text s = not (is_empty s)

-- markdownMetaCharacters
abbrev pub markdown_meta_characters : Text
markdown_meta_characters = codes "\\`*_[]<>|@#&~"

escape_runes : List ℕ → Text
unfolding has_byte encode_rune
escape_runes [] = []
escape_runes (c ∷ cs) =
    (if ltb c 0x80 && has_byte c markdown_meta_characters then b'\\' ∷ [] else [])
    ++ (encode_rune c ++ escape_runes cs)

-- escapeMarkdown
unfoldable pub escape_markdown : Text → Text
unfolding escape_runes runes
escape_markdown value = escape_runes (runes value)

-- The decimal digits of a number in front of a text; the fuel is at least the number of digits.
digits_from : ℕ → ℕ → Text → Text
digits_from zero n out = out
digits_from (suc fuel) n out =
    let more = digits_from fuel (n / 10) ((b'0' + n % 10) ∷ out) in
    if ltb n 10 then (b'0' + n) ∷ out else more

-- formatBytes; "%d" is used below 1024 only
unfoldable pub format_bytes : Std → ℕ → Text
unfolding digits_from
format_bytes std bytes =
    if leb (1024 * 1024 * 1024) bytes
    then std.two_decimals bytes (1024 * 1024 * 1024) ++ codes " GB"
    else if leb (1024 * 1024) bytes
    then std.two_decimals bytes (1024 * 1024) ++ codes " MB"
    else if leb 1024 bytes
    then std.two_decimals bytes 1024 ++ codes " KB"
    else digits_from 4 bytes [] ++ codes " B"

-- shortRevision
unfoldable pub short_revision : Text → Text
short_revision revision = if ltb 7 (length revision) then take 7 revision else revision

-- hasChangesContent
unfoldable pub has_changes_content : ImageLabels → Bool
unfolding set_text
has_changes_content l =
    (set_text l.source && set_text l.revision)
    || (set_text l.build_ref
        || (set_text l.pr_author || (set_text l.build_event || ltb 0 l.image_size_bytes)))

-- hasLinksContent
unfoldable pub has_links_content : ImageLabels → Bool
unfolding set_text
has_links_content l =
    (set_text l.pr_number && set_text l.source) || (set_text l.build_url && set_text l.build_run_id)

-- A line that is written if a test passes.
abbrev pub line_if : Bool → Text → Text
line_if b line = if b then line else []

-- writeChanges
unfoldable pub write_changes : Std → ImageLabels → Text
unfolding has_changes_content set_text short_revision format_bytes
write_changes std l =
    if not (has_changes_content l)
    then []
    else codes "### Changes\n\n| | |\n|---|---|\n"
      ++ (line_if (set_text l.source && set_text l.revision) (
            codes "| **Commit** | [`"
            ++ (short_revision l.revision
                ++ (codes "`](" ++ (commit_url_of l.source l.revision ++ codes ") |\n"))))
          ++ (line_if (set_text l.build_ref)
                (codes "| **Branch** | `" ++ (l.build_ref ++ codes "` |\n"))
              ++ (line_if (set_text l.pr_author)
                    (codes "| **Author** | @" ++ (l.pr_author ++ codes " |\n"))
                  ++ (line_if (set_text l.build_event)
                        (codes "| **Trigger** | `" ++ (l.build_event ++ codes "` |\n"))
                      ++ (line_if (ltb 0 l.image_size_bytes) (
                            codes "| **Image Size** | "
                            ++ (format_bytes std l.image_size_bytes ++ codes " |\n"))
                          ++ codes "\n")))))

-- The links of `writeLinks`.
links_of : ImageLabels → List Text
unfolding set_text
links_of l =
    (if set_text l.pr_number && set_text l.source
      then (utf8 "🔗 [Source PR #"
          ++ (l.pr_number
              ++ (codes "](" ++ (l.source ++ (codes "/pull/" ++ (l.pr_number ++ codes ")"))))))
        ∷ []
      else [])
    ++ (if set_text l.build_url && set_text l.build_run_id
        then (encode (0x2699 ∷ 0xFE0F ∷ []) ++ (codes " [CI Run](" ++ (l.build_url ++ codes ")")))
          ∷ []
        else [])

-- writeLinks
unfoldable pub write_links : ImageLabels → Text
unfolding has_links_content links_of join
write_links l =
    if not (has_links_content l)
    then []
    else codes "### Links\n\n" ++ (join (utf8 " · ") (links_of l) ++ codes "\n\n")

-- writeLabels
unfoldable pub write_labels : ImageLabels → Text
unfolding set_text is_empty
write_labels l =
    if is_empty l.image_uri && (is_empty l.revision && is_empty l.created)
    then []
    else utf8 "<details>\n<summary>📁 Image Labels</summary>\n\n```\n"
      ++ (line_if (set_text l.image_uri) (codes "image: " ++ (l.image_uri ++ codes "\n"))
          ++ (line_if (set_text l.created) (codes "created: " ++ (l.created ++ codes "\n"))
              ++ (line_if (set_text l.revision) (codes "revision: " ++ (l.revision ++ codes "\n"))
                  ++ codes "```\n\n</details>\n")))

-- FormatPullRequestBody
unfoldable pub format_pull_request_body : Std → ImageLabels → Text
unfolding set_text escape_markdown write_changes write_links write_labels
format_pull_request_body std l =
    (if set_text l.pr_title
      then utf8 "## 📦 Image Update: " ++ (escape_markdown l.pr_title ++ codes "\n\n")
      else utf8 "## 📦 Image Update\n\n")
    ++ (write_changes std l ++ (write_links l ++ write_labels l))

escaped : escape_markdown (codes "a`b@c") ≡ codes "a\\`b\\@c"
unfolding escape_markdown
escaped = refl
