-- ===== src/Updater/Handle.antt =====
-- internal/application/updater/service.go: `Service.Handle` and `Service.apply`.
use image_updater.Prelude.{Bool, not, ◌||◌, List, [], ◌∷◌, ◌++◌, if◌then◌else◌}
use image_updater.Std.{Std}
use image_updater.Model.Errors.{Error, wrap, join, Result, ok, err}
use image_updater.Model.Image.{ImagePushEvent, reference, name}
use image_updater.Label.Labels.{ImageLabels, no_labels, image_labels_of}
use image_updater.Updater.Types.{RepositoryPlan, EventPlan}
use image_updater.Updater.Branch.{image_name}
use image_updater.Updater.Plan.{Planner, plan}
use image_updater.Updater.Body.{format_pull_request_body}
use image_updater.Updater.Messages.{MessageRenderer, MessageTemplateData, RenderedMessages, render}
use image_updater.Updater.Ports.{Ports, History, Exec, make, pure, try, ◌>>=◌, read_metadata}
use image_updater.Updater.Apply.{apply_repository}

-- Service; `has_resolver` tells that the metadata resolver is not nil.
pub record Service : Type 0 where
  pub planner : Planner
  pub has_resolver : Bool
  pub ports : Ports
  pub messages : MessageRenderer

-- imageLabels
unfoldable pub image_labels : Service → ImagePushEvent → Exec ImageLabels
unfolding reference image_labels_of
image_labels s event =
    if not s.planner.annotate_from_labels || not s.has_resolver then pure no_labels else do
      r ←
          try (
            make (read_metadata (reference event)) (λ h. s.ports.read_metadata h (reference event)))
      elim r [ err e ↦ pure no_labels | ok m ↦ pure (image_labels_of s.planner.std m) ]

-- The data of a repository's messages.
unfoldable pub message_data : Std → RepositoryPlan → ImageLabels → MessageTemplateData
unfolding image_name name reference format_pull_request_body
message_data std p labels = record {
  environment = p.env;
  image_name = image_name p.event.repository;
  image_repository = p.event.repository;
  image = name (reference p.event);
  image_tag = p.event.tag;
  default_body = format_pull_request_body std labels;
}

-- The first loop of `apply`: the messages of every repository.
unfoldable pub render_all :
    Service → ImageLabels → List RepositoryPlan → Result (List (RepositoryPlan × RenderedMessages))
unfolding render message_data
render_all s labels [] = ok []
render_all s labels (p ∷ ps) = elim (render s.messages (message_data s.planner.std p labels)) [
  | err e ↦ err (wrap (p.location.repository_url ∷ []) e)
  | ok m ↦ elim (render_all s labels ps) [ err e ↦ err e | ok rest ↦ ok ((p, m) ∷ rest) ]
]

-- The second loop of `apply`: one repository after the other, and the failures.
unfoldable pub apply_all :
    Ports
    → ImageLabels
    → List (RepositoryPlan × RenderedMessages)
    → List Error
    → History
    → List Error × History
unfolding apply_repository
apply_all ports labels [] failures h = (failures, h)
apply_all ports labels ((p, m) ∷ rest) failures h =
    let (r, h') = apply_repository ports p labels m h in
    apply_all ports labels rest
      (elim r [
        | ok _ ↦ failures
        | err e ↦ failures ++ wrap (p.location.repository_url ∷ []) e ∷ []
      ])
      h'

-- errors.Join
unfoldable pub join_errors : List Error → Result (Unit {0})
join_errors [] = ok tt
join_errors (e ∷ es) = elim (join_errors es) [ ok _ ↦ err e | err d ↦ err (join e d) ]

-- Service.apply
unfoldable pub apply : Service → EventPlan → Exec (Unit {0})
unfolding image_labels render_all apply_all join_errors
apply s p = do
  labels ← image_labels s p.event
  λ h. elim (render_all s labels p.repositories) [
    | err e ↦ (err e, h)
    | ok messages ↦
        let (failures, h') = apply_all s.ports labels messages [] h in (join_errors failures, h')
  ]

-- Service.Handle
unfoldable pub handle : Service → ImagePushEvent → Exec (Unit {0})
unfolding plan apply
handle s event h = elim (plan s.planner event) [ err e ↦ (err e, h) | ok p ↦ apply s p h ]
