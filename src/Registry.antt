-- ===== src/Registry.antt =====
-- internal/registry: the contexts of the server, of the consumer and of the cron commands. A method
-- that a context does not declare is that of an embedded interface, and panics where that is nil.
pub mod Sharing
pub mod Security
pub mod Workers
use platform_idp_demo.Base.{◌≡◌, refl, Option, none, some}
use platform_idp_demo.Config.{Settings, Config}
use platform_idp_demo.Go.{M, pure, deref, panicked, returned, ◌>>=◌}

-- What the contexts are built from: the configuration, the clients of the helper packages, which may
-- panic when they are made, and the product repository over a database.
pub record Parts (W : Type 0) : Type 1 where
  pub settings : Settings
  pub Database : Type 0
  pub Cache : Type 0
  pub Downloader : Type 0
  pub Producer : Type 0
  pub ProductRepo : Type 0
  -- `db.Must(&c.Database)`; `db.Must` with the migrator of entity
  pub open_database : settings.Database → M W Database
  pub open_migrated_database : settings.Database → M W Database
  -- `cache.New(c.Cache)`, `downloader.NewDownloader()` and `NewProductRepository`
  pub new_cache : settings.Cache → M W Cache
  pub new_downloader : M W Downloader
  pub new_product_repository : Database → ProductRepo

module _ {W : Type 0} (K : Parts W) where
  -- The methods of `BaseContext`; a producer may be nil.
  pub record BaseContext : Type 0 where
    pub base_config : M W (Config K.settings)
    pub base_downloader : M W K.Downloader
    pub base_cache_client : M W K.Cache
    pub base_producer_client : M W (Option K.Producer)

  pub record RepositoryContext : Type 0 where
    pub product_repo : K.ProductRepo

  -- `serviceContext`: `base` and `repository` are the embedded interfaces. The authenticator, which
  -- nothing sets, and the security context, a struct without fields, are left out; the service factory is
  -- in Registry.Sharing.
  pub record ServiceContext : Type 0 where
    pub base : Option BaseContext
    pub repository : Option RepositoryContext
    pub config : Config K.settings
    pub cache_client : K.Cache

  -- `consumerContext` and `cronContext`
  pub record WorkerContext : Type 0 where
    pub repository : Option RepositoryContext
    pub config : Config K.settings
    pub cache_client : K.Cache

  abbrev pub new_repository_context : K.Database → RepositoryContext
  new_repository_context sql_conn = record { product_repo = K.new_product_repository sql_conn }

  unfoldable pub new_service_context : Config K.settings → M W ServiceContext
  new_service_context c = do
    sql_conn ← K.open_migrated_database c.database
    cache ← K.new_cache c.cache
    pure (record {
      base = none;
      repository = some (new_repository_context sql_conn);
      config = c;
      cache_client = cache;
    })

  unfoldable pub new_consumer_context : Config K.settings → M W WorkerContext
  new_consumer_context c = do
    sql_conn ← K.open_database c.database
    cache ← K.new_cache c.cache
    pure (record {
      repository = some (new_repository_context sql_conn);
      config = c;
      cache_client = cache;
    })

  unfoldable pub new_cron_context : Config K.settings → M W WorkerContext
  new_cron_context c = do
    cache ← K.new_cache c.cache
    pure (record { repository = none; config = c; cache_client = cache })

  -- `GetProductRepo`, of the embedded interface.
  abbrev pub get_product_repo : Option RepositoryContext → M W K.ProductRepo
  get_product_repo repository = do r ← deref repository; pure r.product_repo

  -- `GetProducerClient` of a service context, of the embedded interface too.
  unfoldable pub get_producer_client : ServiceContext → M W (Option K.Producer)
  get_producer_client s = do b ← deref s.base; b.base_producer_client

  -- `GetProducerClient` of a consumer or cron context.
  unfoldable pub get_worker_producer_client : WorkerContext → M W (Option K.Producer)
  get_worker_producer_client s = pure none

  -- `GetConfig` and `GetCacheClient` of a service context, and of a consumer or cron context.
  abbrev pub get_config : ServiceContext → M W (Config K.settings)
  get_config s = pure s.config

  abbrev pub get_cache_client : ServiceContext → M W K.Cache
  get_cache_client s = pure s.cache_client

  abbrev pub get_worker_config : WorkerContext → M W (Config K.settings)
  get_worker_config s = pure s.config

  abbrev pub get_worker_cache_client : WorkerContext → M W K.Cache
  get_worker_cache_client s = pure s.cache_client

  -- `GetDownloader` of every context.
  abbrev pub get_downloader : M W K.Downloader
  get_downloader = K.new_downloader

  -- When its database and its cache are opened, the server's context gives the configuration, the cache,
  -- and the product repository over the database; a call of its `GetProducerClient` panics.
  pub new_service_context_lem :
      (c : Config K.settings) (w w₁ w₂ : W) (sql_conn : K.Database) (cache : K.Cache)
      → K.open_migrated_database c.database w ≡ returned sql_conn w₁
      → K.new_cache c.cache w₁ ≡ returned cache w₂
      → (s : ServiceContext) × (new_service_context c w ≡ returned s w₂)
        × (s.config ≡ c)
        × (s.cache_client ≡ cache)
        × (get_product_repo s.repository w₂ ≡ returned (K.new_product_repository sql_conn) w₂)
        × (get_producer_client s w₂ ≡ panicked w₂)
  unfolding new_service_context get_producer_client
  new_service_context_lem c w w₁ w₂ sql_conn cache opened cached = (
    record {
      base = none;
      repository = some (new_repository_context sql_conn);
      config = c;
      cache_client = cache;
    },
    rw (opened, cached) refl,
    refl,
    refl,
    refl,
    refl,
  )

  -- When its cache is opened, the context of the cron commands gives the configuration, the cache and a
  -- nil producer, but a call of its `GetProductRepo` panics.
  pub new_cron_context_lem :
      (c : Config K.settings) (w w₁ : W) (cache : K.Cache)
      → K.new_cache c.cache w ≡ returned cache w₁
      → (s : WorkerContext) × (new_cron_context c w ≡ returned s w₁)
        × (s.config ≡ c)
        × (s.cache_client ≡ cache)
        × (get_worker_producer_client s w₁ ≡ returned none w₁)
        × (get_product_repo s.repository w₁ ≡ panicked w₁)
  unfolding new_cron_context get_worker_producer_client
  new_cron_context_lem c w w₁ cache cached = (
    record { repository = none; config = c; cache_client = cache },
    rw cached refl,
    refl,
    refl,
    refl,
    refl,
  )
