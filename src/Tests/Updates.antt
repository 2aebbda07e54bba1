-- ===== src/Tests/Updates.antt =====
-- Updates of the small world, with ports that answer the same to every history.
use image_updater.Prelude.{◌↔◌, ◌≡◌, refl, insert_by, refl, true, List, [], ◌∷◌, some, all, any}
use image_updater.Text.{codes}
use image_updater.Model.Errors.{sentinel, plain, duplicate_pull_request, ok, err, is_ok}
use image_updater.Label.Labels.{no_labels}
use image_updater.Updater.Types.{RepositoryPlan}
use image_updater.Updater.Messages.{MessageRenderer, RenderedMessages}
use image_updater.Updater.Ports.{Ports}
use image_updater.Updater.Apply.{apply_repository}
use image_updater.Updater.Handle.{Service, apply_all, join_errors, handle}
use image_updater.Updater.Apply.Phase.{idle, phase, phase-empty}
use image_updater.Updater.Apply.Protocol.{handle-phase}
use image_updater.Updater.Apply.Outcome.{wants_retry, outcomes, attempted, apply_all-outcomes}
use image_updater.Updater.Apply.Success.{IsPublished, apply_repository-IsPublished}
use image_updater.Updater.Apply.Settled.{settles, settles-apply_repository}
use image_updater.Updater.Messages.{MessageTemplateData, render}
use image_updater.Updater.Messages.Fit.{AreFit, render-AreFit}
use image_updater.Tests.World.{pushed_image}
use image_updater.Tests.Plans.{demo_planner, infra_plan, copy_plan}

-- Ports where everything goes well, and a pattern of two directories is resolved.
abbrev good_ports : Ports
good_ports = record {
  read_metadata = λ h r. err (plain []);
  find_open_pull_request = λ h o r b. ok [];
  checkout = λ h u. ok (codes "/tmp/work");
  create_pull_request = λ h p. ok (codes "https://github.com/acme/infra/pull/1");
  resolve = λ h root d. ok (d ∷ codes "apps/extra" ∷ []);
  patch = λ h d u. ok tt;
  create_branch = λ h b. ok tt;
  commit = λ h m. ok tt;
  push = λ h b. ok tt;
  close = λ h. ok tt;
}

-- Ports that already know a pull request.
abbrev busy_ports : Ports
busy_ports = record good_ports {
  find_open_pull_request = λ h o r b. ok (codes "https://github.com/acme/infra/pull/1");
}

-- Ports whose remote has the branch already.
abbrev pub late_ports : Ports
late_ports = record good_ports { push = λ h b. err (sentinel duplicate_pull_request) }

abbrev plain_messages : MessageRenderer
plain_messages = record {
  pull_request_title = λ d. ok d.image_tag;
  pull_request_body = λ d. ok d.image_tag;
  commit_message = λ d. ok d.image_tag;
}

abbrev tag_messages : RenderedMessages
tag_messages = record {
  pull_request_title = codes "v1.2.3";
  pull_request_body = codes "v1.2.3";
  commit_message = codes "v1.2.3";
}

abbrev pub demo_service : Ports → Service
demo_service ports = record {
  planner = demo_planner;
  has_resolver = true;
  ports = ports;
  messages = plain_messages;
}

handle-phase_example : phase (handle (demo_service late_ports) pushed_image []).1 ≡ some idle
handle-phase_example = handle-phase (demo_service late_ports) pushed_image [] phase-empty

abbrev pub both : List (RepositoryPlan × RenderedMessages)
both = (copy_plan, tag_messages) ∷ (infra_plan, tag_messages) ∷ []

apply_all-outcomes_example :
    ((apply_all good_ports no_labels both [] []).1 ≡ attempted good_ports no_labels both [])
    × (is_ok (join_errors (apply_all good_ports no_labels both [] []).0)
        ≡ all is_ok (outcomes good_ports no_labels both []))
    × (wants_retry (join_errors (apply_all good_ports no_labels both [] []).0)
        ≡ any wants_retry (outcomes good_ports no_labels both []))
apply_all-outcomes_example = apply_all-outcomes good_ports no_labels both []

goes_well : (apply_repository good_ports copy_plan no_labels tag_messages []).0 ≡ ok tt
unfolding apply_repository insert_by
goes_well = refl

apply_repository-IsPublished_example :
    IsPublished copy_plan no_labels tag_messages
      (apply_repository good_ports copy_plan no_labels tag_messages []).1
apply_repository-IsPublished_example =
    apply_repository-IsPublished good_ports copy_plan no_labels tag_messages [] goes_well

settles-apply_repository_example :
    settles (apply_repository late_ports infra_plan no_labels tag_messages []).0 ≡ true
settles-apply_repository_example =
    settles-apply_repository late_ports infra_plan no_labels tag_messages []

abbrev demo_data : MessageTemplateData
demo_data = record {
  environment = codes "dev";
  image_name = codes "api";
  image_repository = codes "acme/api";
  image = codes "ghcr.io/acme/api";
  image_tag = codes "v1.2.3";
  default_body = [];
}

rendered : render plain_messages demo_data ≡ ok tag_messages
unfolding render
rendered = refl

render-AreFit_example :
    render plain_messages demo_data ≡ ok tag_messages ↔ AreFit plain_messages demo_data tag_messages
render-AreFit_example = render-AreFit plain_messages demo_data tag_messages
