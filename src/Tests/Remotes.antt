-- ===== src/Tests/Remotes.antt =====
-- A client over a connection to the handler in the same process.
use platform_idp_demo.Base.{◌≡◌, refl, Option, none, some, List, [], ◌∷◌}
use platform_idp_demo.Go.{M, pure, returned, ◌>>=◌}
use platform_idp_demo.Platform.{Err}
use platform_idp_demo.Api.Errors.{
  foreign, list_products_request, list_products_response, get_product_request, get_product_response,
  create_product_request, update_product_request, delete_product_request, export_products_request,
  get_product_from_cache_request, get_product_from_cache_response, check_kafka_request,
  check_kafka_response,
}
use platform_idp_demo.Api.Server.{ProductServer, Answer, Empty, empty}
use platform_idp_demo.Api.Wire.{
  WireType, Message, product_message, empty_message, file_info_message,
}
use platform_idp_demo.Api.Grpc.{
  ClientConn, list_products_grpc_handler, get_product_grpc_handler, create_product_grpc_handler,
  update_product_grpc_handler, delete_product_grpc_handler, export_products_grpc_handler,
  get_product_from_cache_grpc_handler, check_kafka_grpc_handler,
}
use platform_idp_demo.Api.Grpc.Remote.{new_product_client, arrived, Connects}
use platform_idp_demo.Service.{World}
use platform_idp_demo.Service.Unique.{create, update, delete}
use platform_idp_demo.Service.Catalog.{catalog_of, CatalogRun}
use platform_idp_demo.Service.Catalog.Keys.{IsKeyed}
use platform_idp_demo.Handler.Remote.{server, call_all, call_all-CatalogRun}
use platform_idp_demo.Tests.Memory.{plat, Table, lamp}
use platform_idp_demo.Tests.Redis.{redis, Entry}
use platform_idp_demo.Tests.Sheet.{sheets}
use platform_idp_demo.Tests.Servers.{no_queue}
use platform_idp_demo.Tests.Catalogs.{
  keyed, keyed_helpers, keyed-IsLawful, keyed-HasKeys, shelf, chair, dearer, gone,
}

abbrev Shelf : Type 0
Shelf = World Table (List Entry)

abbrev local : ProductServer plat Shelf (Err plat)
local = server keyed redis sheets keyed_helpers (λ e. e) no_queue "" 1

module _ (a b : WireType) where
  -- A nil message does not go over the connection.
  abbrev carry :
      ((Message plat a → M Shelf (Message plat a × Err plat))
        → M Shelf (Answer plat (Message plat b)))
      → Option (Message plat a)
      → Message plat b
      → M Shelf (Message plat b × Err plat)
  carry handler none zero = pure (zero, some (foreign "nil message"))
  carry handler (some req) zero = do
    answer ← handler (λ z. pure (req, none))
    pure (arrived plat (λ e. e) zero answer)

abbrev route :
    (a b : WireType)
    → Option (Message plat a)
    → Message plat b
    → M Shelf (Message plat b × Err plat)
route (product_message list_products_request) (product_message list_products_response) req zero =
    carry (product_message list_products_request) (product_message list_products_response)
      (λ decode. list_products_grpc_handler local none decode none) req zero
route (product_message get_product_request) (product_message get_product_response) req zero =
    carry (product_message get_product_request) (product_message get_product_response)
      (λ decode. get_product_grpc_handler local none decode none) req zero
route (product_message create_product_request) empty_message req zero =
    carry (product_message create_product_request) empty_message
      (λ decode. create_product_grpc_handler local none decode none) req zero
route (product_message update_product_request) empty_message req zero =
    carry (product_message update_product_request) empty_message
      (λ decode. update_product_grpc_handler local none decode none) req zero
route (product_message delete_product_request) empty_message req zero =
    carry (product_message delete_product_request) empty_message
      (λ decode. delete_product_grpc_handler local none decode none) req zero
route (product_message export_products_request) file_info_message req zero =
    carry (product_message export_products_request) file_info_message
      (λ decode. export_products_grpc_handler local none decode none) req zero
route (product_message get_product_from_cache_request)
      (product_message get_product_from_cache_response) req zero =
    carry (product_message get_product_from_cache_request)
      (product_message get_product_from_cache_response)
      (λ decode. get_product_from_cache_grpc_handler local none decode none) req zero
route (product_message check_kafka_request) (product_message check_kafka_response) req zero =
    carry (product_message check_kafka_request) (product_message check_kafka_response)
      (λ decode. check_kafka_grpc_handler local none decode none) req zero
route a b req zero = pure (zero, some (foreign "unimplemented"))

abbrev loopback : ClientConn plat Shelf
loopback = record { invoke = λ a b name req zero. route a b req zero }

loopback-Connects : Connects plat (λ e. e) loopback local none
loopback-Connects = record {
  list_products = λ req w. refl;
  get_product = λ req w. refl;
  create_product = λ req w. refl;
  update_product = λ req w. refl;
  delete_product = λ req w. refl;
  export_products = λ req w. refl;
  get_product_from_cache = λ req w. refl;
  check_kafka = λ req w. refl;
}

call_all-CatalogRun_example :
    (answers : List (Answer plat Empty)) × (w' : Shelf) × (call_all
        (new_product_client loopback)
        (create chair ∷ update dearer ∷ delete gone ∷ [])
        shelf
      ≡ returned answers w')
    × IsKeyed w'.db.rows
    × CatalogRun
        (some empty, none)
        (catalog_of (lamp ∷ []))
        (catalog_of w'.db.rows)
        (create chair ∷ update dearer ∷ delete gone ∷ [])
        answers
call_all-CatalogRun_example =
    call_all-CatalogRun keyed redis sheets keyed_helpers (λ e. e) no_queue "" 1 keyed-IsLawful
      keyed-HasKeys (λ s db. refl) loopback none loopback-Connects
      (create chair ∷ update dearer ∷ delete gone ∷ []) shelf (tt, tt)
