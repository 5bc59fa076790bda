-- ===== src/Tests/Registrations.antt =====
-- Both servers on one context, at concrete inputs.
use platform_idp_demo.Base.{◌≡◌, refl, String, none, List, [], ◌∷◌}
use platform_idp_demo.Go.{returned}
use platform_idp_demo.Api.Grpc.{GrpcServer, service_name}
use platform_idp_demo.Service.{ProductService, new_product_service}
use platform_idp_demo.Service.Factory.{ProductSvcImpl}
use platform_idp_demo.Handler.Rest.{register}
use platform_idp_demo.Handler.Servers.{server_of}
use platform_idp_demo.Handler.Servers.Laws.{rest_then_grpc, grpc_then_rest, register-shared}
use platform_idp_demo.Handler.Rest.Laws.{on_world}
use platform_idp_demo.Registry.Sharing.{App}
use platform_idp_demo.Platform.{Err}
use platform_idp_demo.Tests.Memory.{plat, memory}
use platform_idp_demo.Tests.Redis.{redis}
use platform_idp_demo.Tests.Sheet.{sheets, helpers}
use platform_idp_demo.Tests.Servers.{front, no_queue, Shop, put_world}
use platform_idp_demo.Tests.Workers.{parts, once, once-IsLazy, server}
use platform_idp_demo.Base.{ℕ}

-- The gRPC server keeps the names of its services.
abbrev names : GrpcServer plat Shop (Err plat)
names = record {
  State = List String;
  add_unary_interceptors = λ interceptors state. returned tt state;
  register_service = λ name srv state. returned tt (name ∷ state);
}

abbrev methods : ℕ → String → ProductService plat Shop (Err plat)
methods repo cache =
    on_world (λ (w : Shop). w.1) put_world (new_product_service memory redis sheets helpers 1)

abbrev impl : ProductSvcImpl ℕ String
impl = record { product_repo = 107; cache_client = "cache" }

register-shared_example :
    (app : App parts once) × (rest_then_grpc parts once no_queue "" methods front names server (
      record { service_factory = none; heap = record { services = (2, []); factories = [] } },
      [],
    )
      ≡ returned
          (register front (server_of parts once no_queue "" methods impl))
          (app, service_name ∷ []))
    × (grpc_then_rest parts once no_queue "" methods front names server (
      record { service_factory = none; heap = record { services = (2, []); factories = [] } },
      [],
    )
        ≡ returned
            (register front (server_of parts once no_queue "" methods impl))
            (app, service_name ∷ []))
    × (app.heap.services ≡ (2, impl ∷ []))
register-shared_example =
    register-shared parts once no_queue "" methods once-IsLazy front names server
      (record { services = (2, []); factories = [] }) impl [] (service_name ∷ []) refl refl refl
