-- ===== src/Server/Concurrent.antt =====
-- server.go: requests that the net/http package serves at the same time, each in a goroutine of its
-- own that runs the handler of `Handle`. A turn of a request is one call of an authorizer, or the
-- reading of its body and of the environment, or the run of its task; any other request may take
-- turns between two of them, and may change the world. Within a turn no other request takes one.
pub mod Story
pub mod Told
pub mod Tests
pub mod Alone
use goexpose.Auth.{Authorizers, call_authorizer, method_authorizers}
use goexpose.Common.{
  List, [], Option, Result, String, err, none, ok, panic, some, ℕ, ◌++◌, update, ◌∷◌,
}
use goexpose.Config.{Config, EndpointConfig}
use goexpose.Dict.{Dict, lookup}
use goexpose.Request.{Request}
use goexpose.Response.{Response, new_response, status_unauthorized}
use goexpose.Response.Writing.{Codec, Event, write}
use goexpose.Server.{answer, current_env, drained, not_found_handler, params_of, recovered}
use goexpose.Server.Routes.{Registration, Route}
use goexpose.Server.Serving.{Mux, site_of}
use goexpose.Value.{Value}

-- How far the handler of a request has come: it still asks the authorizers of these names, or it has
-- the parameters for the task, or it has written its response.
pub data Phase (W : Type 0) : Type 0 where
  asking : Route W → Request → List String → Phase W
  running : Route W → Request → Dict Value → Phase W
  finished : List Event → Phase W

-- The world that all requests share, and the phase of each request.
pub record System (W : Type 0) : Type 0 where
  pub world : W
  pub phase : ℕ → Phase W

-- The names that `Authorizers.Authorize` collects.
abbrev pub names_to_check : EndpointConfig → String → List String
names_to_check ec method = ec.authorizers ++ method_authorizers (lookup method ec.methods)

module _ {W : Type 0} (mux : Mux W) (environ : W → List String) (c : Codec) (elapsed : ℕ)
    (config : Config) (made : W) (xs : List (Registration W)) where
  -- What the handler of a request sends.
  abbrev pub sent : Response → Request → List Event
  sent response r = (write c response r.method r.path (some elapsed) []).0

  abbrev pub begin_with : Request → Option (Registration W × Dict String) → Phase W
  begin_with r none = finished (not_found_handler c elapsed r)
  begin_with r (some (x, vars)) =
      asking x.route (record r { vars = vars }) (names_to_check x.route.endpoint_config r.method)

  abbrev pub begin_clean : Request → Option (List Event) → Phase W
  begin_clean r (some events) = finished events
  begin_clean r none = begin_with r (mux.find xs r)

  -- What the router makes of a request.
  unfoldable pub begin : Request → Phase W
  begin r = begin_clean r (mux.redirect r)

  -- The handler after an authorizer has been asked, with the names that are left.
  abbrev pub asked : Result (Unit {0}) → Route W → Request → List String → Phase W
  asked (ok _) x r rest = asking x r rest
  asked (err e) x r rest = finished (sent (new_response status_unauthorized) r)
  asked (panic text) x r rest = finished (sent (recovered config.pretty_json text) r)

  -- The parameters that the handler of the route makes for its task.
  abbrev pub params_at : Route W → Request → W → Dict Value
  params_at x r w =
      params_of r x.endpoint_config
        (current_env (site_of mux environ c elapsed config made x.authorizers) w)

  -- What is sent for what the task has given.
  abbrev pub told : Route W → Request → Dict Value → Result Response → List Event
  told x r params result =
      sent
        (answer (site_of mux environ c elapsed config made x.authorizers) x.endpoint_config r.method
          params result)
        r

  -- One turn of a request.
  unfoldable pub advance : Phase W → W → Phase W × W
  advance (asking x r []) w = (running x r (params_at x r w), w)
  advance (asking x r (an ∷ rest)) w =
      let (allowed, w') = call_authorizer (lookup an x.authorizers) r w in
      (asked allowed x r rest, w')
  advance (running x r params) w =
      let (result, w') = x.task.run (drained r) params w in (finished (told x r params result), w')
  advance (finished events) w = (finished events, w)

  unfoldable pub turn : ℕ → System W → System W
  unfolding advance
  turn i s =
      let (p, w) = advance (s.phase i) s.world in record { world = w; phase = update s.phase i p }

  -- The system after these turns, the last of which is the first of the list.
  unfoldable pub after : System W → List ℕ → System W
  unfolding turn
  after s [] = s
  after s (i ∷ turns) = turn i (after s turns)

  -- Each of the requests has been given to the router.
  abbrev pub start : (ℕ → Request) → W → System W
  start rs w = record { world = w; phase = λ i. begin (rs i) }
