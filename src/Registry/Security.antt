-- ===== src/Registry/Security.antt =====
-- internal/registry/security_*.go: the security contexts. Authentication gives nil clients, as the code that
-- made them is commented out. The clients and the middleware belong to the helper packages.
use platform_idp_demo.Base.{Bool, true, Option, none}
use platform_idp_demo.Config.{Settings, Config}

-- A function type is a middleware of go-zero; the second argument of a path's permission may be nil.
pub record Middlewares : Type 1 where
  pub Authenticator : Type 0
  pub TokenManager : Type 0
  pub Authorizer : Type 0
  pub PermissionProvider : Type 0
  pub PathOptions : Type 0
  pub Middleware : Type 0
  -- `middleware.AuthMiddleware` and `middleware.RequirePathPermission`
  pub auth_middleware : Option Authenticator → Bool → Middleware
  pub require_path_permission : Option Authorizer → Option PathOptions → Middleware

-- `securityContext`, a struct without fields.
abbrev pub SecurityContext : Type 0
SecurityContext = Unit {0}

module _ (S : Settings) (A : Middlewares) where
  -- `authenticationContext`, without its two lazy values, which nothing sets.
  pub record AuthenticationContext : Type 0 where
    pub config : Config S

  pub record AuthorizationContext : Type 0 where
    pub config : S.Server
    pub token_manager : Option A.TokenManager
    pub authorizer : Option A.Authorizer
    pub permission_provider : Option A.PermissionProvider

  pub record HttpSecurityContext : Type 0 where
    pub authenticator : Option A.Authenticator
    pub authorizer : Option A.Authorizer

  abbrev pub new_authentication_context : Config S → AuthenticationContext
  new_authentication_context c = record { config = c }

  abbrev pub get_authenticator : AuthenticationContext → Option A.Authenticator
  get_authenticator s = none

  abbrev pub get_token_manager : AuthenticationContext → Option A.TokenManager
  get_token_manager s = none

  abbrev pub new_authorization_context : S.Server → Option A.TokenManager → AuthorizationContext
  new_authorization_context c token_manager = record {
    config = c;
    token_manager = token_manager;
    authorizer = none;
    permission_provider = none;
  }

  abbrev pub new_security_context : Config S → SecurityContext
  new_security_context c = tt

  abbrev pub new_http_security_context :
      Option A.Authenticator → Option A.Authorizer → HttpSecurityContext
  new_http_security_context authenticator authorizer = record {
    authenticator = authenticator;
    authorizer = authorizer;
  }

  abbrev pub get_auth_middleware : HttpSecurityContext → A.Middleware
  get_auth_middleware s = A.auth_middleware s.authenticator true

  abbrev pub get_authz_middleware : HttpSecurityContext → A.Middleware
  get_authz_middleware s = A.require_path_permission s.authorizer none
