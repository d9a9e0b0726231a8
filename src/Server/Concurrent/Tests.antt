-- ===== src/Server/Concurrent/Tests.antt =====
-- A server whose authorizer and task count their calls, with two requests at the same time.
use goexpose.Auth.{
  AuthorizerFactory, Authorizers, check_endpoints, check_methods, check_names, get_authorizers,
  make_authorizers, find_factory, Authorizer,
}
use goexpose.Common.{List, [], ok, refl, suc, ℕ, ◌+◌, ◌≡◌, ◌∷◌}
use goexpose.Config.{
  Config, new_config, validate_authorizer, validate_endpoint, validate_optional, validate_task,
  validate_query_params,
}
use goexpose.Dict.{Dict, insert, lookup}
use goexpose.Registry.{authorizer_exists, get_task_factory}
use goexpose.Request.{Request}
use goexpose.Response.{new_response, status_ok}
use goexpose.Server.Concurrent.{
  System, advance, after, begin, running, names_to_check, params_at, start, turn,
}
use goexpose.Server.Concurrent.Story.{Story, Vouched, after-Story}
use goexpose.Server.Concurrent.Told.{running-Vouched}
use goexpose.Server.Routes.{
  Registration, Route, TaskFactory, make_tasks, router, routes, routes_from, visit,
}
use goexpose.Server.Routes.Sound.{IsRoute}
use goexpose.Server.Sample.{compile, decimal, echo_config, endpoint, request}
use goexpose.Server.Serving.Sample.{codec, find_mux, find_mux-IsMux, same}
use goexpose.Tasks.{Tasker, task}
use goexpose.Text.{trim_space}

abbrev count : Tasker ℕ
count = task (λ r vars w. (ok (new_response status_ok), w + 10))

abbrev counting : Dict (TaskFactory ℕ)
counting = ("echo", λ tc ec. ok (count ∷ [])) ∷ []

abbrev door : Authorizer ℕ
door r w = (ok tt, suc w)

abbrev doors : Dict (AuthorizerFactory ℕ)
doors = ("open", λ ac. ok door) ∷ []

abbrev guarded : Config
guarded = record new_config {
  authorizers = ("door", record { type = "open"; config = "" }) ∷ [];
  endpoints = endpoint ∷ [];
}

abbrev authorizers : Authorizers ℕ
authorizers = ("door", door) ∷ []

abbrev count_route : Route ℕ
count_route = record {
  authorizers = authorizers;
  method = "GET";
  path = "/echo";
  task_config = echo_config;
  endpoint_config = endpoint;
  task = count;
}

doors_known : get_authorizers decimal doors guarded ≡ ok authorizers
unfolding get_authorizers make_authorizers check_endpoints check_methods check_names
    validate_authorizer authorizer_exists find_factory insert lookup
doors_known = refl

count_routed : routes compile counting [] decimal doors guarded ≡ ok (count_route ∷ [])
unfolding routes get_authorizers make_authorizers check_endpoints check_methods check_names
    validate_authorizer authorizer_exists find_factory insert lookup routes_from validate_endpoint
    validate_optional validate_task visit make_tasks get_task_factory trim_space
    validate_query_params
count_routed = refl

abbrev registrations : List (Registration ℕ)
registrations = router same (count_route ∷ [])

abbrev all_same : ℕ → Request
all_same i = request

abbrev begun : System ℕ
begun = start find_mux (λ w. []) codec 5 guarded 0 registrations all_same 0

abbrev after_turns : List ℕ → System ℕ
after_turns = after find_mux (λ w. []) codec 5 guarded 0 registrations begun

-- Two turns of the request 1 among three of the request 0.
abbrev mixed : List ℕ
mixed = 0 ∷ 1 ∷ 0 ∷ 0 ∷ 1 ∷ []

at_task :
    (after_turns mixed).phase 0
    ≡ running count_route request
        (params_at find_mux (λ w. []) codec 5 guarded 0 registrations count_route request 4)
unfolding after turn advance begin lookup router
at_task = refl

after-Story_example :
    Story find_mux
      (λ w. [])
      codec
      5
      guarded
      0
      registrations
      all_same
      0
      0
      mixed
      ((after_turns mixed).phase 0)
after-Story_example =
    after-Story find_mux (λ w. []) codec 5 guarded 0 registrations all_same 0 mixed 0

running-Vouched_example :
    (a : Authorizers ℕ) × (get_authorizers decimal doors guarded ≡ ok a)
    × (found : IsRoute compile counting [] guarded.endpoints a count_route) × (same
          count_route.method
        ≡ request.method)
    × Vouched find_mux
        (λ w. [])
        codec
        5
        guarded
        0
        registrations
        all_same
        0
        0
        a
        request
        (names_to_check found.endpoint request.method)
        mixed
running-Vouched_example =
    running-Vouched find_mux (λ w. []) codec 5 same compile decimal same counting doors guarded
      (count_route ∷ []) 0 all_same 0 mixed 0 count_route request _ find_mux-IsMux count_routed
      at_task
