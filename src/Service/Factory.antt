-- ===== src/Service/Factory.antt =====
-- internal/service/service_factory.go. A factory and a service are pointers, so they live in a heap and
-- go by their places in it. `oncex.OnceValue` of the helper packages is a parameter.
pub mod Laws
use platform_idp_demo.Base.{
  ℕ, zero, suc, ◌≡◌, refl, Option, none, some, List, [], ◌∷◌, ◌++◌, length, get_elem?,
}
use platform_idp_demo.Config.{Config}
use platform_idp_demo.Registry.{Parts}
use platform_idp_demo.Go.{M, pure, zoom, deref, returned, panicked, restore, ◌>>=◌}

-- `OnceValue[T]`: its zero value, and `MustGet`, which works on the cell.
pub record Once : Type 1 where
  pub Cell : Type 0 → Type 0
  pub unset : {A : Type 0} → Cell A
  pub must_get : {W A : Type 0} → M W A → M (W × Cell A) A

-- What a lazy value promises: the first `MustGet` runs the function, and when it has returned a value
-- the later ones give that value and run nothing.
pub record IsLazy (O : Once) : Type 1 where
  pub Holds : {A : Type 0} → O.Cell A → A → Type 0
  pub must_get-unset :
      {W A : Type 0} (f : M W A) (w w' : W) (a : A)
      → f w ≡ returned a w'
      → (c : O.Cell A) × (O.must_get f (w, O.unset) ≡ returned a (w', c)) × Holds c a
  pub must_get-Holds :
      {W A : Type 0} (f : M W A) (w : W) (c : O.Cell A) (a : A)
      → Holds c a
      → O.must_get f (w, c) ≡ returned a (w, c)

-- The list with its element at a place replaced.
abbrev pub set_elem : {A : Type 0} → List A → ℕ → A → List A
set_elem [] i a = []
set_elem (x ∷ xs) zero a = a ∷ xs
set_elem (x ∷ xs) (suc i) a = x ∷ set_elem xs i a

-- The struct `productSvcImpl`.
pub record ProductSvcImpl (Repo Cache : Type 0) : Type 0 where
  pub product_repo : Repo
  pub cache_client : Cache

module _ {W : Type 0} (K : Parts W) where
  pub record ServiceFactoryContext : Type 0 where
    pub get_config : M W (Config K.settings)
    pub get_downloader : M W K.Downloader
    pub get_product_repo : M W K.ProductRepo
    pub get_cache_client : M W K.Cache

  -- The world that a context works on, and the services that have been allocated.
  abbrev pub Services : Type 0
  Services = W × List (ProductSvcImpl K.ProductRepo K.Cache)

  -- `NewProductService(repo, cache)`
  abbrev pub allocate_service : K.ProductRepo → K.Cache → M Services ℕ
  allocate_service repo cache s =
      returned (length s.1) (s.0, s.1 ++ record { product_repo = repo; cache_client = cache } ∷ [])

  -- The function that `GetProductService` hands to `MustGet`.
  unfoldable pub make_product_service : ServiceFactoryContext → M Services ℕ
  make_product_service ctx = do
    repo ← zoom (λ s. s.0) (λ w s. (w, s.1)) ctx.get_product_repo
    cache ← zoom (λ s. s.0) (λ w s. (w, s.1)) ctx.get_cache_client
    allocate_service repo cache

  module _ (O : Once) where
    pub record ServiceFactory : Type 0 where
      pub ctx : ServiceFactoryContext
      pub product_service : O.Cell ℕ

    pub record Heap : Type 0 where
      pub services : Services
      pub factories : List ServiceFactory

    unfoldable pub new_service_factory : ServiceFactoryContext → M Heap ℕ
    new_service_factory ctx h = returned (length h.factories) (record h {
      factories = h.factories ++ record { ctx = ctx; product_service = O.unset } ∷ [];
    })

    -- What `GetProductService` of the factory at a place does to the heap.
    abbrev pub put_factory : ℕ → ServiceFactory → Services × O.Cell ℕ → Heap → Heap
    put_factory i f s h = record {
      services = s.0;
      factories = set_elem h.factories i (record f { product_service = s.1 });
    }

    unfoldable pub get_product_service : ℕ → M Heap ℕ
    unfolding make_product_service
    get_product_service i h =
        (do
          f ← deref (get_elem? h.factories i)
          zoom (λ g. (g.services, f.product_service)) (put_factory i f)
              (O.must_get (make_product_service f.ctx)))
          h
