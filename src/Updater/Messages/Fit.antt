-- ===== src/Updater/Messages/Fit.antt =====
-- internal/application/updater/message_renderer.go: which rendered messages are sent.
use image_updater.Prelude.{
  ℕ, ◌≤◌, ◌<◌, ◌≡◌, ◌≢◌, ◌↔◌, ◌⊎◌, inl, inr, refl, ap, subst, Bool, false, [], arith, All, All-any,
  any-All, length, List-cases,
}
use image_updater.Text.{Text, is_empty}
use image_updater.Text.Utf8.{runes, rune_count, trim_space}
use image_updater.Model.Errors.{Result, ok, Result-cases, ok-of_>>=, ok-injective}
use image_updater.Updater.Messages.{
  MessageRenderer, MessageTemplateData, RenderedMessages, is_control, is_separator, breaks_line,
  breaks_body, check_text, validate_single_line, validate_body, execute_message_template, named,
  body_data, render, max_pull_request_title_runes, max_commit_message_runes,
  max_pull_request_body_runes,
}

-- No control character (U+0000 to U+001F, U+007F to U+009F), and neither the line separator U+2028 nor
-- the paragraph separator U+2029.
pub IsPrinted : ℕ → Type 0
IsPrinted c = (0x20 ≤ c) × ((c < 0x7F) ⊎ (0xA0 ≤ c)) × (c ≢ 0x2028) × (c ≢ 0x2029)

-- The same, or a tab, a line feed or a carriage return.
pub IsBodyRune : ℕ → Type 0
IsBodyRune c = IsPrinted c ⊎ (c ≡ 0x09) ⊎ (c ≡ 0x0A) ⊎ (c ≡ 0x0D)

-- A text that a template gave, within 1 MiB: not blank, of at most so many runes, all of a kind.
pub record IsFit (P : ℕ → Type 0) (limit : ℕ) (output : Result Text) (value : Text) : Type 0 where
  pub given : output ≡ ok value
  pub in_bytes : length value ≤ 1048576
  pub some_text : trim_space value ≢ []
  pub short : rune_count value ≤ limit
  pub clean : All P (runes value)

pub record AreFit (r : MessageRenderer) (d : MessageTemplateData) (m : RenderedMessages)
    : Type 0 where
  pub title : IsFit IsPrinted 256 (r.pull_request_title d) m.pull_request_title
  pub commit : IsFit IsPrinted 4096 (r.commit_message d) m.commit_message
  pub body : IsFit IsBodyRune 65536 (r.pull_request_body (body_data d)) m.pull_request_body

module _ (P : ℕ → Type 0) (breaks : ℕ → Bool) (right : (c : ℕ) → breaks c ≡ false → P c)
    (never : (c : ℕ) → P c → breaks c ≡ false) where
  check_text-IsFit :
      (template : MessageTemplateData → Result Text) (d : MessageTemplateData) (limit : ℕ)
      → (value : Text) {u : Unit {0}} → named (execute_message_template template d) ≡ ok value
      → check_text breaks limit value ≡ ok u
      → IsFit P limit (template d) value
  unfolding check_text named execute_message_template is_empty
  check_text-IsFit template d limit value e h = elim (Result-cases (template d)) [
    | inl (x, f) ↦ absurd (ground (arith, f, e))
    | inr (t, f) ↦ record {
      given = ground (arith, f, e);
      in_bytes = ground (arith, f, e);
      some_text = λ z. ground (arith, ap is_empty z, h);
      short = ground (arith, h);
      clean = All-any P breaks right (runes value) (ground (arith, h));
    }
  ]

  check_text-accepts :
      (limit : ℕ) (output : Result Text) (value : Text)
      → IsFit P limit output value
      → check_text breaks limit value ≡ ok tt
  unfolding check_text is_empty
  check_text-accepts limit output value f = elim (List-cases (trim_space value)) [
    | inl e ↦ absurd (f.some_text e)
    | inr (c, cs, e) ↦ ground (arith, e, f.short, any-All P breaks never (runes value) f.clean)
  ]

  execute-accepts :
      (template : MessageTemplateData → Result Text) (d : MessageTemplateData) (limit : ℕ)
      → (value : Text) → IsFit P limit (template d) value
      → named (execute_message_template template d) ≡ ok value
  unfolding named execute_message_template
  execute-accepts template d limit value f = ground (arith, f.given, f.in_bytes)

right-IsPrinted : (c : ℕ) → breaks_line c ≡ false → IsPrinted c
unfolding breaks_line is_control is_separator IsPrinted
right-IsPrinted c h = ground (arith, h)

never_line : (c : ℕ) → IsPrinted c → breaks_line c ≡ false
unfolding breaks_line is_control is_separator IsPrinted
never_line c h = ground (arith, h)

right-IsBodyRune : (c : ℕ) → breaks_body c ≡ false → IsBodyRune c
unfolding breaks_body is_control is_separator IsPrinted IsBodyRune
right-IsBodyRune c h = ground (arith, h)

never_body : (c : ℕ) → IsBodyRune c → breaks_body c ≡ false
unfolding breaks_body is_control is_separator IsPrinted IsBodyRune
never_body c h = ground (arith, h)

render-fit :
    (r : MessageRenderer) (d : MessageTemplateData) (m : RenderedMessages)
    → render r d ≡ ok m
    → AreFit r d m
unfolding render validate_single_line validate_body
render-fit r d m h =
    let (title, i, h1) = ok-of_>>= (named (execute_message_template r.pull_request_title d)) _ h in
    let (_, t, h2) = ok-of_>>= (check_text breaks_line max_pull_request_title_runes title) _ h1 in
    let (commit, j, h3) = ok-of_>>= (named (execute_message_template r.commit_message d)) _ h2 in
    let (_, c, h4) = ok-of_>>= (check_text breaks_line max_commit_message_runes commit) _ h3 in
    let (body, k, h5) =
      ok-of_>>= (named (execute_message_template r.pull_request_body (body_data d))) _ h4 in
    let (_, b, h6) = ok-of_>>= (check_text breaks_body max_pull_request_body_runes body) _ h5 in
    subst (AreFit r d) (ok-injective h6) (record {
      title =
          check_text-IsFit IsPrinted breaks_line right-IsPrinted never_line r.pull_request_title d
            256 title i t;
      commit =
          check_text-IsFit IsPrinted breaks_line right-IsPrinted never_line r.commit_message d 4096
            commit j c;
      body =
          check_text-IsFit IsBodyRune breaks_body right-IsBodyRune never_body r.pull_request_body
            (body_data d) 65536 body k b;
    })

fit-render :
    (r : MessageRenderer) (d : MessageTemplateData) (m : RenderedMessages)
    → AreFit r d m
    → render r d ≡ ok m
unfolding render validate_single_line validate_body
fit-render r d m f =
    rw
      (
        execute-accepts IsPrinted breaks_line right-IsPrinted never_line r.pull_request_title d 256
            m.pull_request_title f.title,
        check_text-accepts IsPrinted breaks_line right-IsPrinted never_line 256
            (r.pull_request_title d) m.pull_request_title f.title,
        execute-accepts IsPrinted breaks_line right-IsPrinted never_line r.commit_message d 4096
            m.commit_message f.commit,
        check_text-accepts IsPrinted breaks_line right-IsPrinted never_line 4096
            (r.commit_message d) m.commit_message f.commit,
        execute-accepts IsBodyRune breaks_body right-IsBodyRune never_body r.pull_request_body
            (body_data d) 65536 m.pull_request_body f.body,
        check_text-accepts IsBodyRune breaks_body right-IsBodyRune never_body 65536
            (r.pull_request_body (body_data d)) m.pull_request_body f.body,
      )
      refl

-- Rendering yields messages exactly if these are what the three templates give, in at most 1 MiB each,
-- and can be sent: none is blank, the title and the commit message have at most 256 and 4096 runes, none
-- of them a control character or a line or paragraph separator, and the body at most 65536 runes, with no
-- such character but tabs, line feeds and carriage returns.
pub render-AreFit :
    (r : MessageRenderer) (d : MessageTemplateData) (m : RenderedMessages)
    → render r d ≡ ok m ↔ AreFit r d m
render-AreFit r d m = (render-fit r d m, fit-render r d m)
