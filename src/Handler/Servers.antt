-- ===== src/Handler/Servers.antt =====
-- internal/handler: `RestHandler` of http_handler.go, `GrpcHandler` of grpc_handler.go, and `NewProductHandler`
-- of product_handler.go, which asks the server's context for its service. The gRPC server is a parameter,
-- and so are the methods of a service over its repository and cache.
pub mod Laws
use platform_idp_demo.Base.{ℕ, String, Bool, not, List, [], get_elem?}
use platform_idp_demo.Go.{M, pure, deref, zoom, ◌>>=◌}
use platform_idp_demo.Platform.{Platform}
use platform_idp_demo.Api.Server.{ProductServer}
use platform_idp_demo.Api.Grpc.{GrpcServer, register_product_server}
use platform_idp_demo.Api.Http.{HttpServer, Route}
use platform_idp_demo.Service.{ProductService}
use platform_idp_demo.Service.Factory.{Once, ProductSvcImpl}
use platform_idp_demo.Handler.Kafka.{Queue}
use platform_idp_demo.Handler.Rest.{new_product_handler, register}
use platform_idp_demo.Config.{get_server}
use platform_idp_demo.Registry.{Parts, ServiceContext, get_config}
use platform_idp_demo.Registry.Sharing.{App, ask}

module _ {W : Type 0} (K : Parts W) where
  pub record RestHandler : Type 0 where
    pub svc : ServiceContext K

  pub record GrpcHandler : Type 0 where
    pub svc : ServiceContext K

  abbrev pub new_rest_handler : ServiceContext K → RestHandler
  new_rest_handler svc = record { svc = svc }

  abbrev pub new_grpc_handler : ServiceContext K → GrpcHandler
  new_grpc_handler svc = record { svc = svc }

  -- `is_production` is `IsProduction` of the server's configuration.
  abbrev pub reflection : (K.settings.Server → Bool) → GrpcHandler → M W Bool
  reflection is_production h = do
    config ← get_config K h.svc
    pure (not (is_production (get_server K.settings config)))

  -- `Interceptors` adds none.
  unfoldable pub interceptors :
      {P : Platform} {V Context : Type 0} (G : GrpcServer P V Context)
      → GrpcHandler
      → M G.State (Unit {0})
  interceptors G h = G.add_unary_interceptors []

module _ {P : Platform} {W V Context : Type 0} (K : Parts W) (O : Once) (Q : Queue P V)
    (env : String) (methods : K.ProductRepo → K.Cache → ProductService P V Context) where
  -- The methods of a handler whose service is the struct.
  abbrev pub server_of : ProductSvcImpl K.ProductRepo K.Cache → ProductServer P V Context
  server_of impl = new_product_handler Q env (methods impl.product_repo impl.cache_client)

  -- `NewProductHandler(svc)`. The struct of the service is read at once: nothing ever writes to it.
  unfoldable pub make_product_handler : ServiceContext K → M (App K O) (ProductServer P V Context)
  make_product_handler svc = do
    service ← ask K O svc
    impl ← λ app. deref (get_elem? app.heap.services.1 service) app
    pure (server_of impl)

  -- The routes that `Register` adds to the HTTP server.
  unfoldable pub rest_register :
      (S : HttpServer P V Context) → RestHandler K → M (App K O) (List (Route S))
  unfolding make_product_handler
  rest_register S h = do srv ← make_product_handler h.svc; pure (register S srv)

  unfoldable pub grpc_register :
      (G : GrpcServer P V Context) → GrpcHandler K → M (App K O × G.State) (Unit {0})
  unfolding make_product_handler register_product_server
  grpc_register G h = do
    srv ← zoom (λ s. s.0) (λ app s. (app, s.1)) (make_product_handler h.svc)
    zoom (λ s. s.1) (λ state s. (s.0, state)) (register_product_server G srv)
