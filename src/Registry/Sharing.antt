-- ===== src/Registry/Sharing.antt =====
-- The service factory of the server's context, and what the handlers that ask for the service share: the
-- registration with the HTTP server makes one handler, that with the gRPC server another.
use platform_idp_demo.Base.{ℕ, zero, suc, ◌≡◌, refl, some, List, [], ◌∷◌, ◌++◌, length, get_elem?}
use platform_idp_demo.Go.{M, pure, zoom, returned, ◌>>=◌}
use platform_idp_demo.Registry.{
  Parts, ServiceContext, get_config, get_cache_client, get_downloader, get_product_repo,
}
use platform_idp_demo.Service.Factory.Laws.{
  get_elem?-append, set_elem-append, get_product_service-Holds, get_product_service-unset,
}
use platform_idp_demo.Service.Factory.{
  Once, IsLazy, ServiceFactoryContext, ServiceFactory, Heap, set_elem, new_service_factory,
  get_product_service,
}

module _ {W : Type 0} (K : Parts W) (O : Once) where
  -- The server's context as the factory's.
  abbrev pub factory_context : ServiceContext K → ServiceFactoryContext K
  factory_context s = record {
    get_config = get_config K s;
    get_downloader = get_downloader K;
    get_product_repo = get_product_repo K s.repository;
    get_cache_client = get_cache_client K s;
  }

  -- The lazy factory of the context beside the heap.
  pub record App : Type 0 where
    pub service_factory : O.Cell ℕ
    pub heap : Heap K O

  unfoldable pub get_service_factory : ServiceContext K → M App ℕ
  unfolding new_service_factory
  get_service_factory s =
      zoom (λ a. (a.heap, a.service_factory)) (λ p a. record { service_factory = p.1; heap = p.0 })
        (O.must_get (new_service_factory K O (factory_context s)))

  -- `reg.GetServiceFactory().GetProductService()`, as `NewProductHandler` asks for its service.
  abbrev pub ask : ServiceContext K → M App ℕ
  ask s = do
    f ← get_service_factory s
    zoom (λ a. a.heap) (λ h a. record a { heap = h }) (get_product_service K O f)

  -- The services that so many calls get, one after the other.
  unfoldable pub ask_all : ServiceContext K → ℕ → M App (List ℕ)
  ask_all s zero = pure []
  ask_all s (suc n) = do service ← ask s; rest ← ask_all s n; pure (service ∷ rest)

  abbrev pub copies : ℕ → ℕ → List ℕ
  copies zero a = []
  copies (suc n) a = a ∷ copies n a

  module _ (L : IsLazy O) where
    -- The context's factory is made, and its service too.
    pub record IsReady (app : App) (service : ℕ) : Type 0 where
      pub at : ℕ
      pub factory : ServiceFactory K O
      pub made : L.Holds app.service_factory at
      pub there : get_elem? app.heap.factories at ≡ some factory
      pub holds : L.Holds factory.product_service service

    -- A context that is ready gives its service and changes nothing.
    pub ask-IsReady :
        (s : ServiceContext K) (app : App) (service : ℕ)
        → IsReady app service
        → ask s app ≡ returned service app
    unfolding get_service_factory get_product_service
    ask-IsReady s app service r =
        rw
          (
            L.must_get-Holds (new_service_factory K O (factory_context s)) app.heap
                app.service_factory r.at r.made,
            zoom,
            get_product_service-Holds K O L r.at app.heap r.factory service r.there r.holds,
          )
          refl

    ask_all-IsReady :
        (s : ServiceContext K) (n : ℕ) (app : App) (service : ℕ)
        → IsReady app service
        → ask_all s n app ≡ returned (copies n service) app
    unfolding ask_all
    ask_all-IsReady s zero app service r = refl
    ask_all-IsReady s (suc n) app service r =
        rw (ask-IsReady s app service r, ask_all-IsReady s n app service r) refl

    -- The first call makes a factory and a service from the repository and the cache of the context.
    pub ask-first :
        (s : ServiceContext K) (h : Heap K O) (repo : K.ProductRepo)
        → get_product_repo K s.repository h.services.0 ≡ returned repo h.services.0
        → (app : App) × (ask s (record { service_factory = O.unset; heap = h })
            ≡ returned (length h.services.1) app)
          × (app.heap.services ≡ (
            h.services.0,
            h.services.1 ++ record { product_repo = repo; cache_client = s.cache_client } ∷ [],
          ))
          × IsReady app (length h.services.1)
    unfolding get_service_factory get_product_service
    ask-first s h repo has_repo =
        let i = length h.factories in
        let f : ServiceFactory K O = record {
          ctx = factory_context s;
          product_service = O.unset;
        } in
        let grown : Heap K O = record h { factories = h.factories ++ f ∷ [] } in
        let (c, made, holds) =
          L.must_get-unset (new_service_factory K O (factory_context s)) h grown i refl in
        let (d, ran, holds_service) =
          get_product_service-unset K O L i grown f repo s.cache_client h.services.0 h.services.0
            (get_elem?-append h.factories f) refl has_repo refl in
        (
          record {
            service_factory = c;
            heap = record {
              services = (
                h.services.0,
                h.services.1 ++ record { product_repo = repo; cache_client = s.cache_client } ∷ [],
              );
              factories = set_elem grown.factories i (record f { product_service = d });
            };
          },
          rw (made, zoom, ran) refl,
          refl,
          record {
            at = i;
            factory = record f { product_service = d };
            made = holds;
            there = rw (set_elem-append h.factories f _) (get_elem?-append h.factories _);
            holds = holds_service;
          },
        )

    -- With lazy values that run their function once: when the context of the server has a repository, then any
    -- number of calls of GetServiceFactory and GetProductService, one or more, return, all with one and the
    -- same service; it is the only service that they allocate, and it works on the repository and the cache
    -- of the context.
    pub ask_all-copies :
        (s : ServiceContext K) (n : ℕ) (h : Heap K O) (repo : K.ProductRepo)
        → get_product_repo K s.repository h.services.0 ≡ returned repo h.services.0
        → (app : App) × (ask_all s (suc n) (record { service_factory = O.unset; heap = h })
            ≡ returned (copies (suc n) (length h.services.1)) app)
          × (app.heap.services ≡ (
            h.services.0,
            h.services.1 ++ record { product_repo = repo; cache_client = s.cache_client } ∷ [],
          ))
    unfolding ask_all
    ask_all-copies s n h repo has_repo =
        let (app, ran, services, ready) = ask-first s h repo has_repo in
        (app, rw (ran, ask_all-IsReady s n app _ ready) refl, services)
