-- ===== src/Registry/Workers.antt =====
-- consumer_context.go and cron_context.go of internal/registry: the interfaces of the two contexts, and the
-- methods that `consumerContext` and `cronContext` have for them.
use platform_idp_demo.Base.{◌≡◌, refl, none, some}
use platform_idp_demo.Config.{Config}
use platform_idp_demo.Go.{M, returned}
use platform_idp_demo.Registry.{
  Parts, BaseContext, WorkerContext, new_consumer_context, new_repository_context, get_product_repo,
  get_worker_config, get_worker_cache_client, get_worker_producer_client, get_downloader,
}

module _ {W : Type 0} (K : Parts W) where
  pub record ConsumerContext : Type 0 where
    pub consumer_base : BaseContext K
    pub consumer_product_repo : M W K.ProductRepo

  pub record CronContext : Type 0 where
    pub cron_base : BaseContext K
    pub cron_product_repo : M W K.ProductRepo

  unfoldable pub consumer_context : WorkerContext K → ConsumerContext
  unfolding get_worker_producer_client
  consumer_context c = record {
    consumer_base = record {
      base_config = get_worker_config K c;
      base_downloader = get_downloader K;
      base_cache_client = get_worker_cache_client K c;
      base_producer_client = get_worker_producer_client K c;
    };
    consumer_product_repo = get_product_repo K c.repository;
  }

  unfoldable pub cron_context : WorkerContext K → CronContext
  unfolding get_worker_producer_client
  cron_context c = record {
    cron_base = record {
      base_config = get_worker_config K c;
      base_downloader = get_downloader K;
      base_cache_client = get_worker_cache_client K c;
      base_producer_client = get_worker_producer_client K c;
    };
    cron_product_repo = get_product_repo K c.repository;
  }

  -- When its database and its cache are opened, the consumer's context gives the configuration, the cache,
  -- the product repository over the database, and a nil producer.
  pub new_consumer_context_lem :
      (c : Config K.settings) (w w₁ w₂ : W) (sql_conn : K.Database) (cache : K.Cache)
      → K.open_database c.database w ≡ returned sql_conn w₁
      → K.new_cache c.cache w₁ ≡ returned cache w₂
      → (s : WorkerContext K) × (new_consumer_context K c w ≡ returned s w₂)
        × ((consumer_context s).consumer_base.base_config w₂ ≡ returned c w₂)
        × ((consumer_context s).consumer_base.base_cache_client w₂ ≡ returned cache w₂)
        × ((consumer_context s).consumer_base.base_producer_client w₂ ≡ returned none w₂)
        × ((consumer_context s).consumer_product_repo w₂
            ≡ returned (K.new_product_repository sql_conn) w₂)
  unfolding new_consumer_context consumer_context get_worker_producer_client
  new_consumer_context_lem c w w₁ w₂ sql_conn cache opened cached = (
    record {
      repository = some (new_repository_context K sql_conn);
      config = c;
      cache_client = cache;
    },
    rw (opened, cached) refl,
    refl,
    refl,
    refl,
    refl,
  )
