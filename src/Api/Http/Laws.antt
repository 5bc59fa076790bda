-- ===== src/Api/Http/Laws.antt =====
-- What the HTTP handlers of api/product/product_http.pb.go send.
use platform_idp_demo.Base.{◌≡◌, ℕ, ◌+◌, Option}
use platform_idp_demo.Go.{M, returned}
use platform_idp_demo.Platform.{Platform}
use platform_idp_demo.Api.Errors.{Error}
use platform_idp_demo.Api.Server.{ProductServer}
use platform_idp_demo.Api.Http.{HttpServer, bind_request}

module _ {W : Type 0} (sent : W → ℕ) where
  -- The computation returns, and `n` more responses have been sent.
  abbrev pub Sends : {A : Type 0} → ℕ → M W A → Type 0
  Sends {A} n m = (w : W) → (a : A) × (w' : W) × (m w ≡ returned a w') × (sent w' ≡ n + sent w)

-- Binding and logging send nothing, and each of the three ways to answer sends one response.
pub record SendsOnce {P : Platform} {W Context : Type 0} (S : HttpServer P W Context) (sent : W → ℕ)
    : Type 1 where
  pub bind_sends : {A : Type 0} (zero : A) (r : S.Request) → Sends sent 0 (bind_request S zero r)
  pub error_sends : (e : Error P.Failure) → Sends sent 1 (S.respond_error e)
  pub respond_sends :
      (B : Type 0) (r : S.Request) (resp : Option B) → Sends sent 1 (S.respond B r resp)
  pub log_sends : (e : Error P.Failure) → Sends sent 0 (S.log_error e)

-- Every method of the server returns and sends no response itself.
pub record SendsNothing {P : Platform} {W Context : Type 0} (srv : ProductServer P W Context)
    (sent : W → ℕ) : Type 0 where
  pub list_products_sends : (ctx : Context) (req : _) → Sends sent 0 (srv.list_products ctx req)
  pub get_product_sends : (ctx : Context) (req : _) → Sends sent 0 (srv.get_product ctx req)
  pub create_product_sends : (ctx : Context) (req : _) → Sends sent 0 (srv.create_product ctx req)
  pub update_product_sends : (ctx : Context) (req : _) → Sends sent 0 (srv.update_product ctx req)
  pub delete_product_sends : (ctx : Context) (req : _) → Sends sent 0 (srv.delete_product ctx req)
  pub export_products_sends : (ctx : Context) (req : _) → Sends sent 0 (srv.export_products ctx req)
  pub get_product_from_cache_sends :
      (ctx : Context) (req : _) → Sends sent 0 (srv.get_product_from_cache ctx req)
  pub check_kafka_sends : (ctx : Context) (req : _) → Sends sent 0 (srv.check_kafka ctx req)
