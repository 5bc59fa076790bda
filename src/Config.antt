-- ===== src/Config.antt =====
-- internal/config/config.go. The settings of the helper packages and of go-zero are parameters.
use platform_idp_demo.Base.{String, Bool, Option}
use platform_idp_demo.Base.Int.{ℤ}
use platform_idp_demo.Go.{M, deref, ◌>>=◌}

pub record Settings : Type 1 where
  -- `server.Config`, `gormcst.Database`, `queue.Config` and `cache.Config`
  pub Server : Type 0
  pub Database : Type 0
  pub Queue : Type 0
  pub Cache : Type 0
  -- `Server.Http.Name`
  pub http_name : Server → String
  -- `rest.RestConf`
  pub RestConf : Type 0
  -- `httpc.Service` and `httpc.New`
  pub HttpService : Type 0
  pub new_http_service : String → HttpService

pub record Internal : Type 0 where
  pub name : String
  pub url : String
  pub client_id : String
  pub client_secret : String

abbrev pub get_name : Internal → String
get_name c = c.name

abbrev pub get_url : Internal → String
get_url c = c.url

abbrev pub get_client_id : Internal → String
get_client_id c = c.client_id

abbrev pub get_client_secret : Internal → String
get_client_secret c = c.client_secret

module _ (S : Settings) where
  pub record Config : Type 0 where
    pub server : S.Server
    pub database : S.Database
    pub queue : S.Queue
    pub cache : S.Cache
    pub internal : Internal

  pub record ServerConfig : Type 0 where
    pub id : ℤ
    pub env : String
    pub http : S.RestConf
    pub stat_log : Bool
    pub load_log : Bool

  abbrev pub service_name : Config → String
  service_name c = S.http_name c.server

  abbrev pub get_server : Config → S.Server
  get_server c = c.server

  abbrev pub get_queue : Config → S.Queue
  get_queue c = c.queue

  abbrev pub get_cache : Config → S.Cache
  get_cache c = c.cache

  abbrev pub get_internal : Config → Internal
  get_internal c = c.internal

  abbrev pub get_http_client : Internal → S.HttpService
  get_http_client c = S.new_http_service c.name

  -- `parse` is `flag.Parse`, and `must_load` is `conf.MustLoad` with the environment, which panics or ends
  -- the process where the file cannot be loaded. The file's name is behind a flag's pointer.
  module _ {W : Type 0} (parse : M W (Unit {0})) (must_load : String → M W Config) where
    unfoldable pub load : Option String → M W Config
    load file = do _ ← parse; name ← deref file; must_load name
