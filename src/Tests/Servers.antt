-- ===== src/Tests/Servers.antt =====
-- The HTTP and the gRPC server and the client, at concrete inputs.
use platform_idp_demo.Base.{◌≡◌, refl, ℕ, suc, Bool, true, false, none, some, List, [], ◌∷◌}
use platform_idp_demo.Base.Int.{pos}
use platform_idp_demo.Go.{M, returned}
use platform_idp_demo.Platform.{Err}
use platform_idp_demo.Api.Errors.{foreign}
use platform_idp_demo.Api.Server.{ProductServer, Answer, Empty}
use platform_idp_demo.Api.UpdateProductRequest
use platform_idp_demo.Api.Transports
use platform_idp_demo.Api.Transports.{SendsAnswer, http_handlers-grpc_handlers}
use platform_idp_demo.Api.Http.{
  HttpServer, write_response, list_products_http_handler, get_product_http_handler,
  create_product_http_handler, update_product_http_handler, delete_product_http_handler,
  export_products_http_handler, get_product_from_cache_http_handler, check_kafka_http_handler,
}
use platform_idp_demo.Api.Grpc.{
  ClientConn, list_products_grpc_handler, list_products_client, get_product_grpc_handler,
  get_product_client, create_product_grpc_handler, create_product_client,
  update_product_grpc_handler, update_product_client, delete_product_grpc_handler,
  delete_product_client, export_products_grpc_handler, export_products_client,
  get_product_from_cache_grpc_handler, get_product_from_cache_client, check_kafka_grpc_handler,
  check_kafka_client,
}
use platform_idp_demo.Api.Grpc.Laws.{IsEither, clients-IsEither}
use platform_idp_demo.Types.Entity.{Product}
use platform_idp_demo.Service.{World, new_product_service}
use platform_idp_demo.Handler.Kafka.{Queue}
use platform_idp_demo.Handler.Rest.{new_product_handler}
use platform_idp_demo.Handler.Rest.Laws.{on_world, update_product_http_handler-lost}
use platform_idp_demo.Tests.Memory.{plat, memory, Table, lamp}
use platform_idp_demo.Tests.Redis.{redis, Entry}
use platform_idp_demo.Tests.Sheet.{helpers, sheets}

-- A request is whether it parses, and the world of `desk` counts the responses.
abbrev desk : HttpServer plat ℕ (Unit {0})
desk = record {
  Request = Bool;
  context_of = λ r. tt;
  binder = λ A. none;
  parse = λ A r a n. elim r [
    | true ↦ returned (a, none) n
    | false ↦ returned (a, some (foreign "bad body")) n
  ];
  respond_error = λ e n. returned tt (suc n);
  respond = λ B r resp n. returned (some (foreign "broken pipe")) (suc n);
  ok_json = λ pairs n. returned tt (suc n);
  log_error = λ e n. returned tt n;
}

abbrev sent : ℕ → ℕ
sent n = n

abbrev silent : {B : Type 0} → M ℕ (Answer plat B)
silent n = returned (none, some (foreign "out of order")) n

abbrev idle : ProductServer plat ℕ (Unit {0})
idle = record {
  list_products = λ ctx req. silent;
  get_product = λ ctx req. silent;
  create_product = λ ctx req. silent;
  update_product = λ ctx req. silent;
  delete_product = λ ctx req. silent;
  export_products = λ ctx req. silent;
  get_product_from_cache = λ ctx req. silent;
  check_kafka =
      λ ctx req n. returned (some (record { status = true; message = "connected" }), none) n;
}

-- A world of the number of responses beside the service's own.
abbrev pub Shop : Type 0
Shop = ℕ × World Table (List Entry)

abbrev pub front : HttpServer plat Shop (Err plat)
front = record {
  Request = Unit {0};
  context_of = λ r. none;
  binder = λ A. none;
  parse = λ A r a w. returned (a, none) w;
  respond_error = λ e w. returned tt (suc w.0, w.1);
  respond = λ B r resp w. returned none (suc w.0, w.1);
  ok_json = λ pairs w. returned tt (suc w.0, w.1);
  log_error = λ e w. returned tt w;
}

abbrev pub no_queue : {W : Type 0} → Queue plat W
no_queue = record {
  Producer = Unit {0};
  kafka_driver = "kafka";
  new = λ config w. returned (none, some (foreign "no broker")) w;
  send = λ p limit payload w. returned none w;
  close = λ p w. returned tt w;
}

-- The row that an update without a uid finds, in a table whose updates fail.
abbrev pub unnamed : Product plat
unnamed = record lamp { id_model = record { number = pos 7; uid = "" } }

abbrev stuck : Table
stuck = record { rows = unnamed ∷ []; fresh = 8; broken = true }

abbrev pub shop : Shop
shop = (0, record { db = stuck; entries = [] })

abbrev pub put_world : World Table (List Entry) → Shop → Shop
put_world v w = (w.0, v)

update_product_http_handler-lost_example :
    update_product_http_handler front
      (new_product_handler no_queue "" (
        on_world (λ (w : Shop). w.1) put_world (new_product_service memory redis sheets helpers 1)))
      tt
      shop
    ≡ write_response front {B = Empty} tt none shop
unfolding platform_idp_demo.Repository.Lawful.find_row
update_product_http_handler-lost_example =
    update_product_http_handler-lost memory redis sheets helpers front no_queue ""
      (λ (w : Shop). w.1) put_world 1 tt UpdateProductRequest.zero shop shop unnamed stuck stuck
      (foreign "read only") refl refl refl

-- A connection that refuses every call.
abbrev offline : ClientConn plat ℕ
offline = record { invoke = λ a b name req out n. returned (out, some (foreign "unavailable")) n }

-- The request does not parse.
http_handlers-grpc_handlers_example :
    SendsAnswer desk false
      (list_products_http_handler desk idle)
      (list_products_grpc_handler idle tt (Transports.decode desk false) none)
      0
    × SendsAnswer desk false
        (get_product_http_handler desk idle)
        (get_product_grpc_handler idle tt (Transports.decode desk false) none)
        0
    × SendsAnswer desk false
        (create_product_http_handler desk idle)
        (create_product_grpc_handler idle tt (Transports.decode desk false) none)
        0
    × SendsAnswer desk false
        (update_product_http_handler desk idle)
        (update_product_grpc_handler idle tt (Transports.decode desk false) none)
        0
    × SendsAnswer desk false
        (delete_product_http_handler desk idle)
        (delete_product_grpc_handler idle tt (Transports.decode desk false) none)
        0
    × SendsAnswer desk false
        (export_products_http_handler desk idle)
        (export_products_grpc_handler idle tt (Transports.decode desk false) none)
        0
    × SendsAnswer desk false
        (get_product_from_cache_http_handler desk idle)
        (get_product_from_cache_grpc_handler idle tt (Transports.decode desk false) none)
        0
    × SendsAnswer desk false
        (check_kafka_http_handler desk idle)
        (check_kafka_grpc_handler idle tt (Transports.decode desk false) none)
        0
http_handlers-grpc_handlers_example = http_handlers-grpc_handlers desk false idle 0

clients-IsEither_example :
    IsEither offline (list_products_client offline none)
    × IsEither offline (get_product_client offline none)
    × IsEither offline (create_product_client offline none)
    × IsEither offline (update_product_client offline none)
    × IsEither offline (delete_product_client offline none)
    × IsEither offline (export_products_client offline none)
    × IsEither offline (get_product_from_cache_client offline none)
    × IsEither offline (check_kafka_client offline none)
clients-IsEither_example = clients-IsEither offline none none none none none none none none
