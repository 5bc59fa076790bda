-- ===== src/Service/Factory/Laws.antt =====
-- How the factory makes its service once.
use platform_idp_demo.Base.{ℕ, zero, suc, ◌≡◌, refl, some, List, [], ◌∷◌, ◌++◌, length, get_elem?}
use platform_idp_demo.Go.{returned}
use platform_idp_demo.Registry.{Parts}
use platform_idp_demo.Service.Factory.{
  Once, IsLazy, ServiceFactoryContext, ServiceFactory, Heap, Services, set_elem,
  get_product_service, make_product_service,
}

module _ {A : Type 0} where
  pub get_elem?-append : (xs : List A) (x : A) → get_elem? (xs ++ x ∷ []) (length xs) ≡ some x
  get_elem?-append [] x = refl
  get_elem?-append (y ∷ xs) x = get_elem?-append xs x

  pub set_elem-append :
      (xs : List A) (x y : A) → set_elem (xs ++ x ∷ []) (length xs) y ≡ xs ++ y ∷ []
  set_elem-append [] x y = refl
  set_elem-append (z ∷ xs) x y = rw (set_elem-append xs x y) refl

  set_elem-get_elem? :
      (xs : List A) (i : ℕ) (x : A) → get_elem? xs i ≡ some x → set_elem xs i x ≡ xs
  set_elem-get_elem? [] i x h = refl
  set_elem-get_elem? (y ∷ xs) zero x h = cc
  set_elem-get_elem? (y ∷ xs) (suc i) x h = rw (set_elem-get_elem? xs i x h) refl

module _ {W : Type 0} (K : Parts W) (O : Once) (L : IsLazy O) where
  -- A factory whose service has been made gives it and changes nothing.
  pub get_product_service-Holds :
      (i : ℕ) (h : Heap K O) (f : ServiceFactory K O) (service : ℕ)
      → get_elem? h.factories i ≡ some f
      → L.Holds f.product_service service
      → get_product_service K O i h ≡ returned service h
  unfolding get_product_service
  get_product_service-Holds i h f service there holds =
      rw
        (
          there,
          L.must_get-Holds (make_product_service K f.ctx) h.services f.product_service service
              holds,
          set_elem-get_elem? h.factories i f there,
        )
        refl

  make_product_service_lem :
      (ctx : ServiceFactoryContext K) (s : Services K) (repo : K.ProductRepo) (cache : K.Cache)
      (w₁ w₂ : W)
      → ctx.get_product_repo s.0 ≡ returned repo w₁
      → ctx.get_cache_client w₁ ≡ returned cache w₂
      → make_product_service K ctx s
        ≡ returned
            (length s.1)
            (w₂, s.1 ++ record { product_repo = repo; cache_client = cache } ∷ [])
  unfolding make_product_service
  make_product_service_lem ctx s repo cache w₁ w₂ has_repo has_cache = rw (has_repo, has_cache) refl

  -- A factory whose service has not been made makes it from the repository and the cache of its context,
  -- and holds it.
  pub get_product_service-unset :
      (i : ℕ) (h : Heap K O) (f : ServiceFactory K O) (repo : K.ProductRepo) (cache : K.Cache)
      (w₁ w₂ : W)
      → get_elem? h.factories i ≡ some f
      → f.product_service ≡ O.unset
      → f.ctx.get_product_repo h.services.0 ≡ returned repo w₁
      → f.ctx.get_cache_client w₁ ≡ returned cache w₂
      → (c : O.Cell ℕ) × (get_product_service K O i h
          ≡ returned (length h.services.1) (record {
            services =
                (w₂, h.services.1 ++ record { product_repo = repo; cache_client = cache } ∷ []);
            factories = set_elem h.factories i (record f { product_service = c });
          }))
        × L.Holds c (length h.services.1)
  unfolding get_product_service
  get_product_service-unset i h f repo cache w₁ w₂ there unset has_repo has_cache =
      let made = make_product_service_lem f.ctx h.services repo cache w₁ w₂ has_repo has_cache in
      let (c, ran, holds) =
        L.must_get-unset (make_product_service K f.ctx) h.services _ (length h.services.1) made in
      (c, rw (there, unset, ran) refl, holds)
