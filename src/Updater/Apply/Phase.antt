-- ===== src/Updater/Apply/Phase.antt =====
-- internal/application/updater/service.go: the order of its calls, as phases that a call leads on from.
use image_updater.Prelude.{
  ◌≡◌, refl, ◌∙◌, Bool, [], ◌∷◌, ◌++◌, Option, none, some, if◌then◌else◌, ◌⊎◌, ◌≢◌,
}
use image_updater.Model.Errors.{Error, Result, ok, err, is, no_difference, duplicate_pull_request}
use image_updater.Updater.Ports.{
  Call, Event, History, Exec, after, ◌>>=◌, read_metadata, find_open_pull_request, checkout,
  create_pull_request, resolve, patch, create_branch, commit, push, close,
}

-- Where an update stands. `idle` has no working copy; every other phase has one.
pub data Phase : Type 0 where
  -- no working copy
  idle : Phase
  -- a clone on its base branch
  cloned : Phase
  -- on the update's branch, nothing changed
  branched : Phase
  -- on the update's branch, with a changed manifest
  changed : Phase
  -- the change is committed
  committed : Phase
  -- the branch is on the remote: pushed now, or there from an earlier attempt
  pushed rejected : Phase
  -- the pull request was asked for
  published : Phase
  -- a call failed, and only closing is left
  leaving : Phase

-- The phase after a call by its error, if there is one.
abbrev pub by_error : Phase → (Error → Phase) → Option Error → Option Phase
by_error good bad none = some good
by_error good bad (some e) = some (bad e)

-- A manifest that a patch would not change leaves the update where it stood; any other error ends it.
abbrev pub unpatched : Phase → Error → Phase
unpatched stay e = if is e no_difference then stay else leaving

-- A branch that is on the remote is looked into; any other error ends the update.
abbrev pub unpushed : Error → Phase
unpushed e = if is e duplicate_pull_request then rejected else leaving

abbrev pub gives_up : Error → Phase
gives_up e = leaving

-- The phase after a call, and none where the call is out of order.
abbrev pub next : Phase → Call → Option Error → Option Phase
next idle (read_metadata _) _ = some idle
next idle (find_open_pull_request _ _ _) _ = some idle
next idle (checkout _) r = by_error cloned (λ e. idle) r
next idle _ _ = none
next cloned (resolve _ _) r = by_error cloned gives_up r
next cloned (create_branch _) r = by_error branched gives_up r
next branched (patch _ _) r = by_error changed (unpatched branched) r
next changed (patch _ _) r = by_error changed (unpatched changed) r
next changed (commit _) r = by_error committed gives_up r
next committed (push _) r = by_error pushed unpushed r
next rejected (find_open_pull_request _ _ _) r = by_error rejected gives_up r
next rejected (create_pull_request _) _ = some published
next pushed (create_pull_request _) _ = some published
next _ close _ = some idle
next _ _ _ = none

step : Option Phase → Event → Option Phase
step none e = none
step (some p) e = next p e.call e.failure

phase_from : Option Phase → History → Option Phase
unfolding step
phase_from p [] = p
phase_from p (e ∷ es) = phase_from (step p e) es

-- The phase that a history of calls leads to, from no working copy; none if a call in it is out of
-- order.
pub phase : History → Option Phase
phase h = phase_from (some idle) h

pub phase-empty : phase [] ≡ some idle
unfolding phase phase_from
phase-empty = refl

phase_from-append :
    (p : Option Phase) (h : History) (e : Event)
    → phase_from p (h ++ e ∷ []) ≡ step (phase_from p h) e
unfolding phase_from
phase_from-append p [] e = refl
phase_from-append p (x ∷ h) e = phase_from-append (step p x) h e

-- One more call.
pub phase_make :
    {p : Phase} (h : History) (c : Call) (r : Option Error)
    → phase h ≡ some p
    → phase (h ++ record { call = c; failure = r } ∷ []) ≡ next p c r
unfolding phase phase_from
phase_make h c r e =
    phase_from-append (some idle) h (record { call = c; failure = r }) ∙ unfold step in rw e

-- A working copy is open.
abbrev pub IsOpen : History → Type 0
IsOpen h = (p : Phase) × (phase h ≡ some p) × (p ≢ idle)

-- What a sequence of two actions keeps.
pub bind-keeps :
    {A B : Type 0} (m : Exec A) (f : A → Exec B) (h : History)
    → (P : Result A → History → Type 0) (Q : History → Type 0) → P (m h).0 (m h).1
    → ((e : Error) (x : History) → P (err e) x → Q x)
    → ((a : A) (x : History) → P (ok a) x → Q (f a x).1)
    → Q ((m >>= f) h).1
bind-keeps {A} {B} m f h P Q now failed then' = go (m h).0 (m h).1 now
  where
    go : (r : Result A) (x : History) → P r x → Q (after r f x).1
    go (ok a) x k = then' a x k
    go (err e) x k = failed e x k

-- The phase after an action, by its result.
abbrev pub Ends : {A : Type 0} → Phase → Phase → Result A → History → Type 0
Ends p q (ok a) h = phase h ≡ some p
Ends p q (err e) h = phase h ≡ some q

-- The same, where the last call before an error may be one that was answered.
abbrev pub EndsEither : {A : Type 0} → Phase → Phase → Result A → History → Type 0
EndsEither p q (ok a) h = phase h ≡ some p
EndsEither p q (err e) h = (phase h ≡ some p) ⊎ (phase h ≡ some q)

abbrev pub PatchEnds : Result Bool → History → Type 0
PatchEnds (ok b) h = phase h ≡ some (if b then changed else branched)
PatchEnds (err e) h = IsOpen h

abbrev pub PushEnds : Result (Unit {0}) → History → Type 0
PushEnds (ok u) h = (phase h ≡ some pushed) ⊎ (phase h ≡ some rejected)
PushEnds (err e) h = IsOpen h
