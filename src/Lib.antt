-- ===== src/Lib.antt =====
-- A model of image-updater: a service that is told of a pushed container image, finds the manifest
-- directories that its rules name for the image, and opens one pull request for each repository.
--
-- The parts, and the files that model them (paths from the repository's root):
--
--   internal/model/error.go                     Model/Errors
--   internal/model/image.go, event.go           Model/Image
--   internal/model/rule.go                      Rule: Types (the records), Path (splitPath,
--       splitImagePattern, isVariable), Url (parseManifestURL, validateManifestPath), Tag
--       (newTagMatcher, tagMatcher, ValidateTag), Compile (compileRule, NewRuleSet), Select
--       (compiledRule.match, Matches, Match), Location (variables, expandVariables, Location)
--   internal/model/label_value.go, labels.go    Label: Value (the sanitizeLabel functions), Extra
--       (newExtraLabels, normalizeExtraKey), Labels (NewImageLabels, ImageMetadata.ImageLabels and
--       NewImageManifest of internal/model/manifest.go)
--   internal/model/manifest.go                  Manifest: Document (ImageManifestDocument, Upsert),
--       Comment (RenderImageManifestComment, ParseImageManifestComment and the markers)
--   internal/model/port.go, update.go           Updater/Ports
--   internal/application/updater/service.go     Updater: Types, Branch (the names of branches),
--       Targets (normalizeManifestTargets), Plan (Service.plan), Apply (applyRepository
--       and what it calls), Handle (Service.apply, Service.Handle)
--   internal/application/updater/pull_request_body.go   Updater/Body
--   internal/application/updater/message_renderer.go    Updater/Messages (rendering and the checks
--       on what was rendered)
--   internal/infrastructure/manifest/kustomize/patcher.go   Patch: Tags (replaceTag,
--       repositoryPath, tagIdentifier, changedNewTags), Paths (splitManifestPath,
--       matchesRecursiveManifestPath), File (Patch on a file system)
--   internal/infrastructure/manifest/kustomize/document.go  Patch: Yaml (what yaml.Node holds),
--       Scalar (scalarTokenLength, formatScalar), Document (parse, bytes, replaceScalar,
--       appendMappingEntry, setNewTags), Block (upsertImageManifest, headCommentRange,
--       findManifestBlock, shift)
--   internal/infrastructure/queue/sqs/source.go     Queue: Config (NewSource, applyDefaults), Process
--       (process, acknowledge, the loop of Run), Renewal (renewVisibility);
--       Delivery runs the source with the service as its handler
--   internal/infrastructure/registry/ecr/decoder.go Registry/Ecr
--   internal/infrastructure/registry/oci            Registry: Oci (manifest.go), Oci/Client (client.go)
--   internal/infrastructure/githost/github/repository.go    Hosting (Checkout,
--       validateRepositoryURL)
--
-- `handle` plans first, with no call of a port: `matches` chooses rules, `validate_tag` drops those
-- whose tag patterns refuse the tag, `location` expands the captures, `add_target` groups by
-- repository, `complete_all` normalises targets and names branches. It then applies the plan: the
-- labels of the image are read, the messages rendered, and each repository is searched for an open
-- pull request, checked out, patched, committed, pushed and closed.
--
-- How code becomes definitions. A string is a list of bytes (`Text`); a rune loop goes over `runes`.
-- An error is a tree of what it wraps, so that `errors.Is` is computed on it; of a message only the
-- values it quotes are kept. A port answers by the history of calls made before and the call's
-- arguments, and every call is added to the history with the error that answered it, if one did: a
-- port is then any behaviour of the world, failures at any call included. A deferred `Close` is
-- `close_after`. A nil or absent value is an `Option`, a map is an association list with the order of `range` as the
-- parameter `iterate`. The working copy's `Dir` is the value that the checkout answers.
--
-- A document of a kustomization file is passed on, edited, where the code edits it in place; its lines
-- are lists of bytes and the positions are those that the YAML parser reports. `renewVisibility` runs
-- over rounds, which say when its timer fired, what the call returned and when; the lease that is left is computed at the time the round began. Durations count nanoseconds,
-- and a difference that is negative in the code is 0, where the code does the same on both. A signed
-- field of the configuration is an integer `ℤ`. A size of an image is a word of 64 bits.
--
-- Parameters, beside Std: Manifest.Comment.Yaml, which writes and reads the document of a block; two
-- theorems assume that it reads back one document that it wrote. Patch.Yaml.YamlLibrary, the YAML
-- parser and `strconv.Quote`; Patch.File.Files, the file system; Registry.Oci.Client.Client, the HTTP
-- client, the JSON decoder and the authenticator; Registry.Ecr.Json; Hosting.Origin, the token, the
-- temporary directories and git. No law is assumed of these.
--
-- Parameters, in Std: `regexp`, `net/url`, the order of `range` over a map, `strings.ToLower`,
-- `crypto/sha256`, `unicode.IsPrint` and the two decimals of `%.2f`. No law is assumed of them.
--
-- Loops are recursions on the list they go over. The one function on fuel is `digits_from` of
-- Updater/Body, which prints a number below 1024 and gets 4. Sorting is a stable insertion sort, where
-- the code's `sort.Slice` leaves the order of equal elements open: keys of repositories are distinct,
-- and targets that compare equal are equal in all that the code goes on to read or are in conflict.
--
-- Not modelled: logs; contexts and cancellation; the time of an event; templates before they are
-- executed; `dispatch`, which hands the messages of a batch to the goroutines of `errgroup`. The search for directories and links in a working copy, commits, pushes and pull
-- requests at the Git host, the credentials of registries and the configuration are behind the ports, or
-- are glue to third-party libraries.
--
-- Tests has a small world of rules and ports on which the development is run.
pub mod Prelude
pub mod Text
pub mod Std
pub mod Model
pub mod Rule
pub mod Label
pub mod Manifest
pub mod Patch
pub mod Queue
pub mod Registry
pub mod Hosting
pub mod Updater
pub mod Tests
