-- ===== src/Tests/Workers.antt =====
-- The process of the consumer, lazy values, and the parts of a context, at concrete inputs.
use platform_idp_demo.Base.{List, inr, Option, ◌≡◌, refl, ℕ, ◌+◌, suc, String, none, some, [], ◌∷◌}
use platform_idp_demo.Base.Text.{◌<>◌}
use platform_idp_demo.Go.{M, Exec, zoom, restore, world_after, pure, ◌>>=◌, returned, panicked}
use platform_idp_demo.Config.{Settings, Config}
use platform_idp_demo.Consumer.Main.{Queues, main, main-stop}
use platform_idp_demo.Service.Factory.{Once, IsLazy}
use platform_idp_demo.Registry.{Parts, ServiceContext}
use platform_idp_demo.Tests.Memory.{plat}

-- The settings: those of the database are its number, those of the queue its stack and its topics.
abbrev settings : Settings
settings = record {
  Server = String;
  Database = ℕ;
  Queue = String × List String;
  Cache = String;
  http_name = λ s. s;
  RestConf = Unit {0};
  HttpService = String;
  new_http_service = λ name. name;
}

abbrev config : Config settings
config = record {
  server = "products";
  database = 7;
  queue = ("kafka", "orders" ∷ "mail" ∷ []);
  cache = "cache";
  internal = record { name = "products"; url = "localhost"; client_id = ""; client_secret = "" };
}

-- A world that counts what has been opened.
abbrev pub parts : Parts ℕ
parts = record {
  settings = settings;
  Database = ℕ;
  Cache = String;
  Downloader = Unit {0};
  Producer = Unit {0};
  ProductRepo = ℕ;
  open_database = λ c w. returned c (suc w);
  open_migrated_database = λ c w. returned c (suc w);
  new_cache = λ c w. returned c (suc w);
  new_downloader = λ w. returned tt w;
  new_product_repository = λ sql_conn. sql_conn + 100;
}

abbrev listen : String → M ℕ String
listen topic n = returned ("on " <> topic) n

-- The start panics, and the stop adds 10.
abbrev queues : Queues plat parts (Unit {0}) String
queues = record {
  parse = λ n. returned tt n;
  must_load = λ file n. returned config n;
  kafka_driver = "kafka";
  rabbit_driver = "rabbit";
  stack = λ q. q.0;
  topics = λ q. q.1;
  Listener = String;
  new_kafka = λ q h topic. listen topic;
  new_rabbit = λ q h. listen "rabbit";
  start = λ group n. panicked n;
  stop = λ group n. returned tt (10 + n);
  fatal = λ n. panicked n;
}

main-stop_example : world_after (main parts queues (some "etc/app.yaml") 0) ≡ 12
unfolding platform_idp_demo.Registry.new_consumer_context
main-stop_example =
    main-stop parts queues "etc/app.yaml" 0 0 0 2 2 12 config
      (record {
        repository = some (record { product_repo = 107 });
        config = config;
        cache_client = "cache";
      })
      (λ topic. "on " <> topic) refl refl refl refl (λ topic. refl) (inr refl) refl

-- A lazy value that is empty until it is made.
abbrev run_once : {W A : Type 0} → M W A → Option A → M W (Option A × A)
run_once f (some a) w = returned (some a, a) w
run_once f none w = (do a ← f; pure (some a, a)) w

abbrev ended : {W A : Type 0} → W × Option A → Exec W (Option A × A) → Exec (W × Option A) A
ended s (returned ca w) = returned ca.1 (w, ca.0)
ended s (panicked w) = panicked (w, s.1)
ended s (platform_idp_demo.Go.out_of_fuel w) = platform_idp_demo.Go.out_of_fuel (w, s.1)

abbrev pub once : Once
once = record { Cell = Option; unset = none; must_get = λ f s. ended s (run_once f s.1 s.0) }

abbrev pub once-IsLazy : IsLazy once
once-IsLazy = record {
  Holds = λ c a. c ≡ some a;
  must_get-unset = λ f w w' a ran. (some a, rw ran refl, refl);
  must_get-Holds = λ f w c a holds. rw holds refl;
}

abbrev pub server : ServiceContext parts
server = record {
  base = none;
  repository = some (record { product_repo = 107 });
  config = config;
  cache_client = "cache";
}
