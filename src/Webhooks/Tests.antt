-- ===== src/Webhooks/Tests.antt =====
-- The theorems on webhooks at a concrete delivery.
use ydb_qdrant.Prelude.{[], ◌∷◌, ◌++◌, true, false, ◌≡◌, ◌||◌, ◌↔◌, ◌⊎◌, refl, none, some, All}
use ydb_qdrant.Text.{codes, is_empty}
use ydb_qdrant.Json.{Json, obj, prop, no_prop, str, num, get}
use ydb_qdrant.Jobs.{RepositoryRef, IndexingJob, incremental_push}
use ydb_qdrant.Queue.{has, reserve, mark}
use ydb_qdrant.Webhooks.Payload.{read_installation_id, read_repository, text_or_empty}
use ydb_qdrant.Webhooks.Mapping.{push_job, map_webhook_to_jobs}
use ydb_qdrant.Webhooks.Mapping.Origin.{IsOwn, map_webhook_to_jobs-IsOwn, push_job-default_branch}
use ydb_qdrant.Webhooks.Fallback.{
  works, fails, create_webhook_signature, Deps, State, verify_webhook_signature, jobs_for_webhook,
}
use ydb_qdrant.Webhooks.Handler.{
  process, conclude, recover, enqueue_all, record_if_stored, Request, failure, success, replied,
  threw, deliver, header, webhook_handler,
}
use ydb_qdrant.Webhooks.Handler.Delivery.{deliver-duplicate}
use ydb_qdrant.Webhooks.Handler.Requests.{IsSigned, webhook_handler-IsSigned, webhook_handler-twice}

abbrev push_payload : Json
push_payload = obj (
    prop (codes "installation") (obj (prop (codes "id") (num 11) no_prop)) (
      prop (codes "repository")
        (obj (
          prop (codes "id") (num 5) (
            prop (codes "name") (str (codes "repo")) (
              prop (codes "default_branch") (str (codes "main")) (
                prop (codes "owner") (obj (prop (codes "login") (str (codes "octo")) no_prop))
                  no_prop)))))
        (prop (codes "ref") (str (codes "refs/heads/main"))
          (prop (codes "after") (str (codes "abc")) no_prop))))

abbrev octo_repo : RepositoryRef
octo_repo = record {
  owner = codes "octo";
  repo = codes "repo";
  repo_id = 5;
  default_branch = codes "main";
}

abbrev pushed : IndexingJob
pushed = record {
  base = record { delivery_id = some (codes "d1"); installation_id = 11; repository = octo_repo };
  kind = incremental_push (record {
    after = codes "abc";
    before = [];
    created = false;
    deleted = false;
    forced = false;
    ref = codes "refs/heads/main";
  });
}

push_read : push_job push_payload (codes "d1") ≡ some pushed
unfolding push_job read_installation_id read_repository
push_read = refl

map_webhook_to_jobs-IsOwn_example :
    All
      (IsOwn push_payload (codes "d1"))
      (map_webhook_to_jobs (codes "d1") (codes "push") push_payload)
map_webhook_to_jobs-IsOwn_example =
    map_webhook_to_jobs-IsOwn push_payload (codes "d1") (codes "push")

push_job-default_branch_example :
    (read_repository (get (codes "repository") push_payload) ≡ some octo_repo)
    × (text_or_empty (get (codes "ref") push_payload)
        ≡ codes "refs/heads/" ++ octo_repo.default_branch)
push_job-default_branch_example = push_job-default_branch push_payload (codes "d1") pushed push_read

abbrev deps : Deps
deps = record {
  atomic = true;
  reserve_call = works;
  mark_call = works;
  release_call = works;
  lifecycle_store = none;
  enqueue_succeeds = λ j. true;
  repository_source = none;
  webhook_secret = codes "s";
  hmac = λ secret body. secret ++ body;
  parse = λ body. some push_payload;
  number_of = λ s. none;
}

abbrev nothing_yet : State
nothing_yet = record { deliveries = record { delivery_ids = [] }; enqueued = []; calls = [] }

abbrev d1_seen : State
d1_seen = record {
  deliveries = record { delivery_ids = codes "d1" ∷ [] };
  enqueued = [];
  calls = [];
}

seen : has d1_seen.deliveries (codes "d1") ≡ true
unfolding has
seen = refl

duplicate :
    deliver deps (codes "d1") (codes "push") push_payload d1_seen
    ≡ (d1_seen, replied 200 (success 0 (codes "duplicate")))
duplicate = deliver-duplicate deps (codes "d1") (codes "push") push_payload d1_seen refl seen

-- A queue that throws, before a store that cannot release: the delivery stays reserved.
abbrev broken_deps : Deps
broken_deps = record deps { enqueue_succeeds = λ j. false; release_call = fails false }

stays_reserved :
    let (s', a) = deliver broken_deps (codes "d1") (codes "push") push_payload nothing_yet in
    (a ≡ threw) × (has s'.deliveries (codes "d1") ≡ true)
unfolding deliver process recover enqueue_all jobs_for_webhook map_webhook_to_jobs push_job
    read_installation_id read_repository reserve has
stays_reserved = (refl, refl)

abbrev forged : Request
forged = record {
  body = codes "{}";
  delivery = some (codes "d1");
  event = some (codes "push");
  signature = some (codes "sha256=x{}");
}

abbrev signed : Request
signed = record {
  body = codes "{}";
  delivery = some (codes "d1");
  event = some (codes "push");
  signature = some (codes "sha256=s{}");
}

refused :
    verify_webhook_signature deps.hmac forged.body deps.webhook_secret forged.signature ≡ false
unfolding verify_webhook_signature create_webhook_signature
refused = refl

webhook_handler-IsSigned_example :
    (((webhook_handler deps forged nothing_yet).1
        ≡ replied 401 (failure (codes "invalid signature")))
      ↔ (((is_empty (header forged.delivery) || is_empty (header forged.event)) ≡ false)
          × ¬ IsSigned deps forged))
    × (((webhook_handler deps forged nothing_yet).0 ≡ nothing_yet) ⊎ IsSigned deps forged)
webhook_handler-IsSigned_example = webhook_handler-IsSigned deps forged nothing_yet

answered : (webhook_handler deps signed nothing_yet).1 ≡ replied 200 (success 1 (codes "accepted"))
unfolding webhook_handler deliver process conclude recover enqueue_all record_if_stored
    jobs_for_webhook map_webhook_to_jobs push_job read_installation_id read_repository
    verify_webhook_signature create_webhook_signature reserve mark has
answered = refl

webhook_handler-twice_example :
    let s' = (webhook_handler deps signed nothing_yet).0 in
    webhook_handler deps signed s' ≡ (s', replied 200 (success 0 (codes "duplicate")))
webhook_handler-twice_example =
    webhook_handler-twice deps signed nothing_yet (success 1 (codes "accepted")) answered
