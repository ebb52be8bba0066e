-- ===== src/Examples/Process.antt =====
-- A process that starts and stops, a template, and a deprecated version.
use mern_auth.Prelude.{
  Bool, Option, String, take, drop, ◌==◌, if◌then◌else◌, ℕ, ◌+◌, ◌≡◌, ◌↔◌, refl, none, some, [],
  ◌∷◌, ◌++◌, List, true, false, arith,
}
use mern_auth.Text.{codes}
use mern_auth.Errors.{plain, ok}
use mern_auth.Exec.{Exec, returned, raised}
use mern_auth.Bootstrap.{
  Factories, App, ServiceDefinition, get_email_service, start_services, graceful_shutdown,
}
use mern_auth.Bootstrap.Singletons.{EmailGot, get_email_service_lem}
use mern_auth.Bootstrap.Startup.{Outcomes, InTime, start_services-Outcomes, graceful_shutdown_iff}
use mern_auth.Email.Template.{Files, no_templates, compile_template}
use mern_auth.Email.Template.Laws.{RendersAs, fresh, compile_template_lem, no_templates-IsValid}
use mern_auth.Api.Version.{api_version_middleware, slashed, sunset}
use mern_auth.Api.Version.Laws.{api_version_middleware-deprecated}
use mern_auth.Email.Breaker.{
  BreakerEvent, open_event, close_event, success_event, failure_event, no_stats, after_events,
}
use mern_auth.Email.Breaker.Statistics.{Counts, after_events-Counts}
use mern_auth.Cache.{Reply, bulk}
use mern_auth.Api.Health.{check_health, readiness_handler}
use mern_auth.Api.Health.Probes.{probes_iff, IsHealthy, IsReady, health_code, readiness_code}
use mern_auth.Api.ResponseCache.{
  RedisStore, Json, HttpRequest, HttpReply, no_header, hit_header, miss_header, default_options,
  cache_middleware,
}
use mern_auth.Api.ResponseCache.Laws.{miss_then_hit}
use mern_auth.Database.Repository.{Model, find_with_pagination, map_documents}
use mern_auth.Database.Repository.Pages.{read_pages, pages_named, read_pages-all}

-- The state counts the services made; a service is its number.
abbrev factories : Factories ℕ ℕ ℕ ℕ ℕ
factories = record {
  connect_redis = λ s. returned s (s + 1);
  create_database_service = λ s. returned s (s + 1);
  create_email_service = λ d s. returned d (s + 1);
  init_queue_services = λ r s. returned tt (s + 1);
  new_feature_flag_service = λ r s. returned r (s + 1);
}

abbrev new_process : App ℕ ℕ ℕ ℕ ℕ
new_process = record {
  redis_service_instance = none;
  database_service_instance = none;
  email_service_instance = none;
  queue_services_initialized = false;
  feature_flag_service_instance = none;
  world = 7;
}

get_email_service_lem_example :
    EmailGot factories (λ e. e) (λ f. f) (get_email_service factories new_process)
get_email_service_lem_example =
    get_email_service_lem factories (λ e. e) (λ f. f) (λ d e t t' made. cc) new_process (tt, tt, tt)

abbrev broken_service : ServiceDefinition ℕ
broken_service = record { name = "email"; init = λ s. raised (plain "no provider") s }

abbrev working_service : ServiceDefinition ℕ
working_service = record { name = "database"; init = λ s. returned tt (s + 1) }

abbrev some_services : List (ServiceDefinition ℕ)
some_services = broken_service ∷ working_service ∷ []

start_services-Outcomes_example :
    Outcomes
      (λ ms s. s + ms)
      10
      some_services
      0
      (start_services (λ ms s. s + ms) 10 some_services 0)
start_services-Outcomes_example = start_services-Outcomes (λ ms s. s + ms) 10 some_services 0

graceful_shutdown_iff_example :
    (graceful_shutdown
        (λ s. s)
        (λ s. returned tt (s + 1))
        (some (λ s. raised (plain "hook") s))
        (λ s. returned tt (s + 1))
        10
        0
      ≡ 0)
    ↔ InTime
        (λ s. s)
        (λ s. returned tt (s + 1))
        (some (λ s. raised (plain "hook") s))
        (λ s. returned tt (s + 1))
        10
        0
graceful_shutdown_iff_example =
    graceful_shutdown_iff (λ s. s) (λ s. returned tt (s + 1)) (λ s. returned tt (s + 1))
      (some (λ s. raised (plain "hook") s)) 10 0

-- Templates are plain texts.
abbrev files : Files
files = record {
  template_dirs = "a" ∷ "b" ∷ [];
  access = λ dir. true;
  read_file = λ path. ok "Hello";
  join = λ dir path. path;
  compile = λ source fields. ok source;
}

compile_template_lem_example :
    RendersAs files 2024
      (fresh files 2024 "welcome" [])
      (compile_template files 2024 "welcome" [] no_templates)
compile_template_lem_example =
    compile_template_lem files 2024 "welcome" [] no_templates (no_templates-IsValid files 2024)

api_version_middleware-deprecated_example :
    api_version_middleware
      (record {
        current_version = codes "v2";
        deprecated_version = some (codes "v1");
        sunset_date = none;
        successor_version = some (codes "v2");
      })
      (slashed (codes "v1") ++ codes "auth")
    ≡ ("Deprecation", codes "true")
      ∷ ((sunset none
            ++ (
              "Link",
              codes "<"
                  ++ (slashed (codes "v2") ++ codes "auth")
                  ++ codes ">; rel=\"successor-version\"",
            )
              ∷ [])
          ++ ("X-API-Version", codes "v1") ∷ [])
api_version_middleware-deprecated_example =
    api_version_middleware-deprecated (codes "v1") (codes "v2") (codes "auth") none (codes "v2")
      refl (λ e. omega (arith, e), (λ e. omega (arith, e), tt))
      (λ e. omega (arith, e), (λ e. omega (arith, e), tt))

abbrev events : List BreakerEvent
events = open_event 5 ∷ success_event ∷ failure_event ∷ close_event 9 ∷ []

after_events-Counts_example : Counts events no_stats (after_events events no_stats)
after_events-Counts_example = after_events-Counts events no_stats

-- A store of one value, whose key is not looked at.
abbrev store : RedisStore (Option String)
store = record {
  get = λ key s. returned s s;
  setex = λ key duration value s. returned tt (some value);
  keys = λ pattern s. returned [] s;
  del = λ keys s. returned 0 s;
}

abbrev plain_json : Json String
plain_json = record { stringify = λ s. s; parse = λ s. ok s }

abbrev list_request : HttpRequest
list_request = record { method = "GET"; original_url = "/api/v1/users" }

abbrev list_reply : HttpReply String
list_reply = record { status = 200; x_cache = no_header; body = "[]" }

set_then_get :
    (key value : String) (t t' : Option String)
    → store.setex key 60 value t ≡ returned tt t'
    → store.get key t' ≡ returned (some value) t'
set_then_get key value t t' done = ground arith

miss_then_hit_example :
    (cache_middleware store plain_json 60 default_options list_request
        (λ s. returned list_reply s)
        none
      ≡ returned (record list_reply { x_cache = miss_header }) (some "[]"))
    × (cache_middleware store plain_json 60 default_options list_request
          (λ s. raised (plain "down") s)
          (some "[]")
        ≡ returned (record { status = 200; x_cache = hit_header; body = "[]" }) (some "[]"))
miss_then_hit_example =
    miss_then_hit store plain_json 60 default_options list_request (λ s. returned list_reply s)
      (λ s. raised (plain "down") s) list_reply none none none (some "[]") (λ j. refl) set_then_get
      refl refl refl refl refl

-- The documents are numbers, of which 2 is not mapped; the other calls are not used.
abbrev numbers : Model ℕ ℕ ℕ ℕ ℕ
numbers = record {
  save = λ u s. returned u s;
  find_by_id = λ id s. returned none s;
  find_one = λ q s. returned none s;
  find = λ q options s. returned [] s;
  find_sorted = find_numbers;
  count_documents = λ q s. returned 5 s;
  find_by_id_and_update = λ id u s. returned none s;
  find_by_id_and_delete = λ id s. returned none s;
}
  where
    find_numbers : ℕ → ℕ → Option ℕ → ℕ → Exec ℕ (List ℕ)
    find_numbers q o none limit s = raised (plain "negative") s
    find_numbers q o (some skip) limit s =
        returned (take limit (drop skip (1 ∷ 2 ∷ 3 ∷ 4 ∷ 5 ∷ []))) s

abbrev odd_one : ℕ → Option ℕ
odd_one n = if n == 2 then none else some n

read_pages-all_example :
    read_pages numbers odd_one 0 2 0 0
      (pages_named numbers odd_one (find_with_pagination numbers odd_one 0 1 2 0 0))
    ≡ map_documents numbers odd_one (1 ∷ 2 ∷ 3 ∷ 4 ∷ 5 ∷ [])
read_pages-all_example =
    read_pages-all numbers odd_one 0 0 2 0 0 (1 ∷ 2 ∷ 3 ∷ 4 ∷ 5 ∷ []) (omega arith) (λ skip. refl)
      refl

abbrev pings : Exec ℕ Bool
pings = λ s. returned true s

abbrev pong : Exec ℕ Reply
pong = λ s. returned (bulk (codes "PONG")) s

probes_iff_example :
    ((health_code (check_health pings pong (λ s. 1) (λ s. "ready") 0) ≡ 200)
      ↔ IsHealthy pings pong 0)
    × ((readiness_code (readiness_handler pings pong true "closed" 0) ≡ 200)
        ↔ IsReady pings pong true "closed" 0)
probes_iff_example = probes_iff pings pong (λ s. 1) (λ s. "ready") true "closed" 0
