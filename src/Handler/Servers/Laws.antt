-- ===== src/Handler/Servers/Laws.antt =====
-- The HTTP server and the gRPC server that are registered on one context.
use platform_idp_demo.Base.{◌≡◌, refl, some, List, [], ◌∷◌, ◌++◌, length, get_elem?, String, ℕ}
use platform_idp_demo.Go.{M, pure, zoom, returned, ◌>>=◌}
use platform_idp_demo.Platform.{Platform}
use platform_idp_demo.Api.Grpc.{GrpcServer, service_name, register_product_server}
use platform_idp_demo.Api.Http.{HttpServer, Route}
use platform_idp_demo.Service.{ProductService}
use platform_idp_demo.Service.Factory.{Once, IsLazy, Heap, ProductSvcImpl}
use platform_idp_demo.Service.Factory.Laws.{get_elem?-append}
use platform_idp_demo.Handler.Kafka.{Queue}
use platform_idp_demo.Handler.Rest.{register}
use platform_idp_demo.Handler.Servers.{
  make_product_handler, server_of, rest_register, grpc_register, new_rest_handler, new_grpc_handler,
}
use platform_idp_demo.Registry.{Parts, ServiceContext, get_product_repo}
use platform_idp_demo.Registry.Sharing.{App, ask-first, ask-IsReady, IsReady}

module _ {P : Platform} {W V Context : Type 0} (K : Parts W) (O : Once) (Q : Queue P V)
    (env : String) (methods : K.ProductRepo → K.Cache → ProductService P V Context) where
  module _ (S : HttpServer P V Context) (G : GrpcServer P V Context) where
    -- The HTTP server is registered on its own part of the state.
    abbrev pub register_routes : ServiceContext K → M (App K O × G.State) (List (Route S))
    register_routes s =
        zoom (λ a. a.0) (λ app a. (app, a.1))
          (rest_register K O Q env methods S (new_rest_handler K s))

    abbrev pub rest_then_grpc : ServiceContext K → M (App K O × G.State) (List (Route S))
    rest_then_grpc s = do
      routes ← register_routes s
      _ ← grpc_register K O Q env methods G (new_grpc_handler K s)
      pure routes

    abbrev pub grpc_then_rest : ServiceContext K → M (App K O × G.State) (List (Route S))
    grpc_then_rest s = do
      _ ← grpc_register K O Q env methods G (new_grpc_handler K s)
      register_routes s

  module _ (L : IsLazy O) where
    make_product_handler-IsReady :
        (s : ServiceContext K) (app : App K O) (service : ℕ)
        (impl : ProductSvcImpl K.ProductRepo K.Cache)
        → IsReady K O L app service
        → get_elem? app.heap.services.1 service ≡ some impl
        → make_product_handler K O Q env methods s app
          ≡ returned (server_of K O Q env methods impl) app
    unfolding make_product_handler
    make_product_handler-IsReady s app service impl ready there =
        rw (ask-IsReady K O L s app service ready, there) refl

    make_product_handler-first :
        (s : ServiceContext K) (h : Heap K O) (impl : ProductSvcImpl K.ProductRepo K.Cache)
        → get_product_repo K s.repository h.services.0 ≡ returned impl.product_repo h.services.0
        → s.cache_client ≡ impl.cache_client
        → (app : App K O) × (make_product_handler K O Q env methods s
              (record { service_factory = O.unset; heap = h })
            ≡ returned (server_of K O Q env methods impl) app)
          × (app.heap.services ≡ (h.services.0, h.services.1 ++ impl ∷ []))
          × (make_product_handler K O Q env methods s app
              ≡ returned (server_of K O Q env methods impl) app)
    unfolding make_product_handler
    make_product_handler-first s h impl has_repo has_cache =
        let (app, ran, services, ready) = ask-first K O L s h impl.product_repo has_repo in
        let there : get_elem? app.heap.services.1 (length h.services.1) ≡ some impl =
          rw (services, has_cache) (get_elem?-append h.services.1 impl) in
        (
          app,
          rw (ran, there) refl,
          rw (← has_cache) services,
          make_product_handler-IsReady s app (length h.services.1) impl ready there,
        )

    -- With lazy values that run their function once: when the context of the server has a repository and the
    -- gRPC server takes the product server, then registering the HTTP routes and the gRPC service, in either
    -- order, returns, and both get the handler of one and the same service: it is the only service that is
    -- allocated, and it works on the repository and the cache of the context.
    pub register-shared :
        (S : HttpServer P V Context) (G : GrpcServer P V Context) (s : ServiceContext K)
        (h : Heap K O) (impl : ProductSvcImpl K.ProductRepo K.Cache) (g g' : G.State)
        → get_product_repo K s.repository h.services.0 ≡ returned impl.product_repo h.services.0
        → s.cache_client ≡ impl.cache_client
        → G.register_service service_name (server_of K O Q env methods impl) g ≡ returned tt g'
        → (app : App K O) × (rest_then_grpc S G s
              (record { service_factory = O.unset; heap = h }, g)
            ≡ returned (register S (server_of K O Q env methods impl)) (app, g'))
          × (grpc_then_rest S G s (record { service_factory = O.unset; heap = h }, g)
              ≡ returned (register S (server_of K O Q env methods impl)) (app, g'))
          × (app.heap.services ≡ (h.services.0, h.services.1 ++ impl ∷ []))
    unfolding rest_register grpc_register register_product_server
    register-shared S G s h impl g g' has_repo has_cache taken =
        let (app, first, services, later) =
          make_product_handler-first s h impl has_repo has_cache in
        (app, rw (first, later, taken) refl, rw (first, taken, later) refl, services)
