-- ===== src/Label/Extra.antt =====
-- internal/model/labels.go: the custom labels under `LabelExtraPrefix`.
use image_updater.Prelude.{ℕ, not, ◌&&◌, ◌||◌, List, [], ◌∷◌, ◌++◌, ◌==◌, leb, if◌then◌else◌}
use image_updater.Text.{Text, codes, is_empty, cut_prefix, trim}
use image_updater.Text.Utf8.{runes}
use image_updater.Std.{Std}
use image_updater.Rule.Location.{Captures, put}
use image_updater.Label.Value.{sanitize_label_text}

-- LabelExtraPrefix
abbrev pub label_extra_prefix : Text
label_extra_prefix = codes "org.opencontainers.image.extra."

-- What the loop of `normalizeExtraKey` writes for a rune.
key_rune : ℕ → Text
key_rune c =
    if (leb b'a' c && leb c b'z') || ((leb b'0' c && leb c b'9') || c == b'_')
    then c ∷ []
    else if c == b'.' || (c == b'-' || c == b'/')
    then b'_' ∷ []
    else []

key_runes : List ℕ → Text
unfolding key_rune
key_runes [] = []
key_runes (c ∷ cs) = key_rune c ++ key_runes cs

-- normalizeExtraKey
unfoldable pub normalize_extra_key : Std → Text → Text
unfolding key_runes runes trim
normalize_extra_key std suffix = trim (λ c. c == b'_') (key_runes (runes (std.lower suffix)))

-- The loop of `newExtraLabels`, over the labels in the order in which the map yields them.
extra_from : Std → Captures → Captures → Captures
unfolding cut_prefix normalize_extra_key sanitize_label_text is_empty put
extra_from std [] extra = extra
extra_from std ((key, value) ∷ labels) extra =
    let (suffix, found) = cut_prefix label_extra_prefix key in
    let normalized = normalize_extra_key std suffix in
    let sanitized = sanitize_label_text std value in
    extra_from std labels (
      if not found
      then extra
      else if is_empty normalized || is_empty sanitized
      then extra
      else put normalized sanitized extra)

-- newExtraLabels; no custom label is the empty map
unfoldable pub new_extra_labels : Std → Captures → Captures
unfolding extra_from
new_extra_labels std labels = extra_from std (std.iterate labels) []
