-- ===== src/Webhook/Samples.antt =====
-- A webhook handler for the tests, with a digest and a body that are constant.
use oh_my_github_runner.Prelude.{none, some, false, [], ◌∷◌, codes}
use oh_my_github_runner.Prelude.Action.{ok, err, thrown}
use oh_my_github_runner.RateLimit.{missing}
use oh_my_github_runner.Queue.Samples.{one}
use oh_my_github_runner.Task.Samples.{sample_repo}
use oh_my_github_runner.Dispatch.{default_dispatcher}
use oh_my_github_runner.Payload.{Payload, object}
use oh_my_github_runner.Webhook.{WebhookHandler, World, Headers, single}

abbrev pub payload : Payload
payload = record {
  action = some "opened";
  repository = some sample_repo;
  sender = some (record { id = 5; login = "ann" });
  issue = some (record { number = 7; labels = none; has_pull_request = false });
  comment = none;
  pull_request = none;
}

-- GitHub refuses the reaction, and gives the comment the id 31.
abbrev pub handler : WebhookHandler
handler = record {
  secret = "s";
  dispatcher = default_dispatcher 1 (5 ∷ []);
  github = record {
    pull_request_state = λ calls. err (thrown "404");
    reaction_id = λ calls. err (thrown "403");
    comment_id = λ calls. ok 31;
    paused_until = λ calls. [];
  };
  hmac = λ secret body. codes "ab";
  parse_json = λ body. some (object payload);
  text_of = λ text. "";
}

abbrev pub headers : Headers
headers = record {
  signature = some (single (codes "sha256=ab"));
  delivery = some (single "d1");
  event = some (single "issues");
}

abbrev pub unsigned : Headers
unsigned = record headers { signature = none }

abbrev pub world : World
world = record {
  daemon = record {
    store = one;
    pauses = missing;
    checkpoints = record { dirs = []; corrupt = [] };
    active_tasks = [];
    last_idle_warning_at = 0;
    last_prune_at = 0;
    notices = [];
    warnings = [];
  };
  delivery_dedup = record { entries = []; max_entries = 10; ttl_ms = 600000 };
  calls = [];
}
