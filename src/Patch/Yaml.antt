-- ===== src/Patch/Yaml.antt =====
-- The YAML library as internal/infrastructure/manifest/kustomize/document.go uses it: the syntax tree
-- of `yaml.Node`, and its functions as parameters.
use image_updater.Prelude.{ℕ, suc, zero, Bool, List, Option, none, some}
use image_updater.Text.{Text}
use image_updater.Patch.Tags.{ImageEntry}

-- yaml.Kind
pub data Kind : Type 0 where
  sequence mapping scalar other_kind : Kind

-- yaml.Style: the plain style is 0
pub data Style : Type 0 where
  plain_style single_quoted double_quoted other_style : Style

-- What a node has beside its children; lines and columns count from 1.
pub record Mark : Type 0 where
  pub kind : Kind
  pub value : Text
  pub style : Style
  pub line : ℕ
  pub column : ℕ

mutual
  -- yaml.Node
  pub data Node : Type 0 where
    node : Mark → Nodes → Node

  -- Node.Content
  pub data Nodes : Type 0 where
    nil : Nodes
    cons : Node → Nodes → Nodes

abbrev pub mark : Node → Mark
mark (node m ns) = m

abbrev pub content : Node → Nodes
content (node m ns) = ns

-- Content[i]
unfoldable pub nth : Nodes → ℕ → Option Node
nth nil i = none
nth (cons n ns) zero = some n
nth (cons n ns) (suc i) = nth ns i

-- `yaml.Unmarshal` into a node, `Node.Decode` into the images, whether a text on its own is read as a
-- string, and `strconv.Quote`.
pub record YamlLibrary : Type 0 where
  pub unmarshal : Text → Option Node
  pub decode_images : Node → Option (List ImageEntry)
  pub reads_string : Text → Bool
  pub quote : Text → Text
