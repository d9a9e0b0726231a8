-- ===== src/Server/Serving.antt =====
-- server.go: `NewServer` and `Server.Run`, and what the router of the mux package makes of the
-- handlers that `router` has registered.
pub mod Guarded
pub mod Sample
pub mod Tests
use goexpose.Auth.{AuthorizerFactory, Authorizers}
use goexpose.Common.{
  Error, List, [], Option, Result, String, none, ok, some, suc, ℕ, ◌<>◌, ◌∷◌, ◌⊎◌,
}
use goexpose.Config.{Config, Regexp, SslConfig}
use goexpose.Dict.{Dict}
use goexpose.Effect.{Call, Io, perform, pure, ◌>>=◌}
use goexpose.Request.{Request}
use goexpose.Response.Writing.{Codec, Event, add_header, write_header}
use goexpose.Server.{Site, get_env, handle, not_found_handler}
use goexpose.Server.Routes.{Registration, Route, TaskFactory, router, routes}
use goexpose.Value.{ℤ, negsuc, pos}

-- `VERSION`
abbrev pub version : String
version = "1.0.0"

pub record Server : Type 0 where
  pub config : Config
  pub version : String

unfoldable pub new_server : Config → Result Server
new_server config = ok (record { config = config; version = version })

-- An `http.Handler`: what it does to the writer for a request.
abbrev pub Handler : Type 0 → Type 0
Handler W = Request → W → List Event × W

-- The router of the mux package: what it sends itself to a request whose path is not clean (a redirect
-- to the clean one), and else the registration that matches it, with the variables of its path.
pub record Mux (W : Type 0) : Type 0 where
  pub redirect : Request → Option (List Event)
  pub find : List (Registration W) → Request → Option (Registration W × Dict String)

-- The net/http package: `http.ListenAndServe` and `http.ListenAndServeTLS` with an address, the files
-- of a certificate and its key, and the handler of all requests.
pub record Network (W : Type 0) : Type 0 where
  pub listen : String → Handler W → Call W (Unit {0})
  pub listen_tls : String → String → String → Handler W → Call W (Unit {0})

-- The `%d` of an `int`, with the digits of a natural number given.
abbrev pub decimal_int : (ℕ → String) → ℤ → String
decimal_int decimal (pos n) = decimal n
decimal_int decimal (negsuc n) = "-" <> decimal (suc n)

module _ {W : Type 0} (mux : Mux W) (environ : W → List String) (c : Codec) (elapsed : ℕ) where
  -- What `Handle` has of the server for a route, where the handlers were made in the state `made`.
  abbrev pub site_of : Config → W → Authorizers W → Site W
  site_of config made authorizers = record {
    authorizers = authorizers;
    reload_env = config.reload_env;
    pretty_json = config.pretty_json;
    env = get_env (environ made);
    environ = environ;
  }

  abbrev pub handle_route : Config → W → Route W → Handler W
  handle_route config made x r w =
      handle (site_of config made x.authorizers) c elapsed x.task x.endpoint_config r w

  abbrev pub dispatch : Config → W → Option (Registration W × Dict String) → Handler W
  dispatch config made none r w = (not_found_handler c elapsed r, w)
  dispatch config made (some (x, vars)) r w =
      handle_route config made x.route (record r { vars = vars }) w

  abbrev pub serve_clean : Config → W → List (Registration W) → Option (List Event) → Handler W
  serve_clean config made xs (some events) r w = (events, w)
  serve_clean config made xs none r w = dispatch config made (mux.find xs r) r w

  -- The router as the handler of all requests.
  unfoldable pub serve : Config → W → List (Registration W) → Handler W
  serve config made xs r w = serve_clean config made xs (mux.redirect r) r w

module _ {W : Type 0} (mux : Mux W) (environ : W → List String) (c : Codec) (elapsed : ℕ)
    (compile : String → Error ⊎ Regexp) (decimal : ℕ → String) (sha256_hex : String → String)
    (tasks : Dict (TaskFactory W)) (authorizers : Dict (AuthorizerFactory W))
    (network : Network W) where
  abbrev pub listen_with : Option SslConfig → String → Handler W → Call W (Unit {0})
  listen_with none address handler = network.listen address handler
  listen_with (some ssl) address handler = network.listen_tls address ssl.cert ssl.key handler

  -- `Server.Run`, with the log lines left out
  unfoldable pub run : Server → Io W (Unit {0})
  run s w =
      let config = s.config in
      let listening = λ (rs : List (Route W)) (w₁ : W).
        let address = config.host <> ":" <> decimal_int decimal config.port in
        let handler = serve mux environ c elapsed config w₁ (router sha256_hex rs) in
        perform (listen_with config.ssl address handler) w₁ in
      (pure (routes compile tasks [] decimal authorizers config) >>= listening) w
