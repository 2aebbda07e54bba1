-- ===== src/Std.antt =====
-- The parts of Go's library that the program rests on and that are taken as parameters.
use image_updater.Prelude.{ℕ, Bool, Option, List}
use image_updater.Text.{Text}

-- What `net/url` reads in a text, as far as the rules look at it: `user` tells whether there is
-- user information, and `text` is what `URL.String` writes.
pub record Url : Type 0 where
  pub scheme : Text
  pub host : Text
  pub user : Bool
  pub raw_query : Text
  pub fragment : Text
  pub path : Text
  pub text : Text

-- `regexp.Compile` with `MatchString`; `url.Parse`; the order in which `range` yields the entries of
-- a map; `strings.ToLower`; the first 8 bytes of `sha256.Sum256` in hexadecimal; `unicode.IsPrint`;
-- the quotient of two numbers as `%.2f` prints it.
pub record Std : Type 0 where
  pub compile : Text → Option (Text → Bool)
  pub parse_url : Text → Option Url
  pub iterate : List (Text × Text) → List (Text × Text)
  pub lower : Text → Text
  pub digest : Text → Text
  pub is_print : ℕ → Bool
  pub two_decimals : ℕ → ℕ → Text
