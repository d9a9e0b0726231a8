-- ===== src/Server/Routes/Sound.antt =====
-- Where the routes of the server come from.
use mathlib.Core.List.{Memᴰ}
use mathlib.Core.Path.{subst}
use goexpose.Auth.{method_authorizers, AuthorizerFactory, Authorizers, get_authorizers}
use goexpose.Common.{
  All, All-append, All-map, Bool-cases, Error, List, [], Option, Result, String, contains, err,
  false, inl, inr, map, none, ok, panic, refl, some, ap, ℕ, ◌++◌, ◌<>◌, ◌∷◌, ◌≡◌, ◌⊎◌, >>=-eq-ok,
  ok-injective, ◌∙◌,
}
use goexpose.Config.{
  validate_optional, Config, EndpointConfig, Regexp, TaskConfig, validate_endpoint, validate_task,
}
use goexpose.Dict.{Dict, lookup}
use goexpose.Registry.{get_task_factory}
use goexpose.Server.Routes.{
  call_factory, told, Route, TaskFactory, Visit, make_tasks, routes, routes_from, routes_of, start,
  visit,
}
use goexpose.Server.Routes.Guards.{method_authorizers-visit}
use goexpose.Tasks.{Tasker}

module _ {A : Type 0} where
  -- What `P` says of each element, it says of any.
  members : (xs : List A) → All (λ x. Memᴰ x xs) xs
  members [] = tt
  members (x ∷ xs) = (
    Memᴰ.head refl,
    All-map (λ y. Memᴰ y xs) (λ y. Memᴰ y (x ∷ xs)) xs (λ y h. Memᴰ.tail h) (members xs),
  )

  map-All :
      {B : Type 0} (f : A → B) (P : B → Type 0) (xs : List A)
      → All (λ x. P (f x)) xs
      → All P (map f xs)
  map-All f P [] h = tt
  map-All f P (x ∷ xs) h = (h.0, map-All f P xs h.1)

module _ {W : Type 0} (compile : String → Error ⊎ Regexp) (reg : Dict (TaskFactory W))
    (ignored : List String) where
  -- A method `m` of an endpoint's configuration that is not ignored and validates, and a task that the
  -- factory registered for its trimmed type has made of it.
  pub record IsTask (methods : Dict TaskConfig) (m : String) (task : Tasker W) : Type 0 where
    pub config : TaskConfig
    pub listed : Memᴰ (m, config) methods
    pub kept : contains ignored config.type ≡ false
    pub validated : TaskConfig
    pub validates : validate_task compile config ≡ ok validated
    pub factory : TaskFactory W
    pub registered : get_task_factory validated.type reg ≡ some factory
    pub endpoint : EndpointConfig
    pub tasks : List (Tasker W)
    pub produced : factory validated endpoint ≡ ok tasks
    pub among : Memᴰ task tasks

  -- A route of the server.
  pub record IsRoute (endpoints : List EndpointConfig) (authorizers : Authorizers W) (r : Route W)
      : Type 0 where
    pub endpoint : EndpointConfig
    pub listed : Memᴰ endpoint endpoints
    pub task : IsTask endpoint.methods r.method r.task
    pub path : r.path ≡ endpoint.path <> r.task.path
    pub guarded : r.authorizers ≡ authorizers
    pub same_guards : r.endpoint_config.authorizers ≡ endpoint.authorizers
    pub method_guards :
        (m : String)
        → method_authorizers (lookup m r.endpoint_config.methods)
          ≡ method_authorizers (lookup m endpoint.methods)

  told_inverse :
      (type : String) (made : Result (List (Tasker W))) {ts : List (Tasker W)}
      → told type made ≡ ok ts
      → made ≡ ok ts
  told_inverse type (ok ts) h = h
  told_inverse type (err e) h = cc
  told_inverse type (panic text) h = cc

  call_inverse :
      (o : Option (TaskFactory W)) (tc : TaskConfig) (ec : EndpointConfig) {ts : List (Tasker W)}
      → call_factory o tc ec ≡ ok ts
      → (f : TaskFactory W) × (o ≡ some f) × (f tc ec ≡ ok ts)
  call_inverse none tc ec h = cc
  call_inverse (some f) tc ec h = (f, refl, told_inverse tc.type (f tc ec) h)

  pub make_tasks_inverse :
      (tc : TaskConfig) (ec : EndpointConfig) (ts : List (Tasker W))
      → make_tasks reg tc ec ≡ ok ts
      → (f : TaskFactory W) × (get_task_factory tc.type reg ≡ some f) × (f tc ec ≡ ok ts)
  unfolding make_tasks
  make_tasks_inverse tc ec ts h = call_inverse (get_task_factory tc.type reg) tc ec h

  visit-All :
      (methods : Dict TaskConfig) (ec : EndpointConfig) (rest : Dict TaskConfig) (v v' : Visit W)
      → All (λ m. Memᴰ m methods) rest
      → All (λ made. IsTask methods made.0 made.1) v.made
      → visit compile reg ignored ec rest v ≡ ok v'
      → All (λ made. IsTask methods made.0 made.1) v'.made
  unfolding visit
  visit-All methods ec [] v v' listed h k =
      subst (λ x. All (λ made. IsTask methods made.0 made.1) x.made) (ok-injective k) h
  visit-All methods ec ((m, tc) ∷ rest) v v' listed h k =
      elim (Bool-cases (contains ignored tc.type)) [
        | inl skip ↦
            subst (λ x. All (λ made. IsTask methods made.0 made.1) x.made)
              (ok-injective (rw skip at k)) h
        | inr keep ↦
            let passed = λ (t : TaskConfig).
              v.passed ++ (m, record tc { query_params = t.query_params }) ∷ [] in
            let (tc', valid, k₁) = >>=-eq-ok (validate_task compile tc) _ (rw keep at k) in
            let (ts, made, k₂) = >>=-eq-ok (make_tasks reg tc' _) _ k₁ in
            let (f, found, produced) = make_tasks_inverse tc' _ ts made in
            let new_ones =
              map-All (λ t. (m, t)) (λ x. IsTask methods x.0 x.1) ts
                (All-map (λ t. Memᴰ t ts) (λ t. IsTask methods m t) ts
                  (λ t among. record {
                    config = tc;
                    listed = listed.0;
                    kept = keep;
                    validated = tc';
                    validates = valid;
                    factory = f;
                    registered = found;
                    endpoint = _;
                    tasks = ts;
                    produced = produced;
                    among = among;
                  })
                  (members ts)) in
            visit-All methods ec rest _ v' listed.1
              (All-append (λ x. IsTask methods x.0 x.1) v.made (map (λ t. (m, t)) ts) h new_ones) k₂
      ]

  pub validate_endpoint_keeps :
      (ec ec' : EndpointConfig)
      → validate_endpoint compile ec ≡ ok ec'
      → (ec'.methods ≡ ec.methods) × (ec'.path ≡ ec.path) × (ec'.authorizers ≡ ec.authorizers)
  unfolding validate_endpoint
  validate_endpoint_keeps ec ec' h =
      let (q, _, k) = >>=-eq-ok (validate_optional compile ec.query_params) _ h in
      let same = ok-injective k in (rw (← same), rw (← same), rw (← same))

  routes_of-All :
      (authorizers : Authorizers W) (all : List EndpointConfig) (ec ec' : EndpointConfig)
      (v : Visit W)
      → Memᴰ ec all
      → validate_endpoint compile ec ≡ ok ec'
      → visit compile reg ignored ec' ec'.methods start ≡ ok v
      → All (IsRoute all authorizers) (routes_of compile reg ignored authorizers ec' v)
  routes_of-All authorizers all ec ec' v listed valid visited =
      let (methods, path, guards) = validate_endpoint_keeps ec ec' valid in
      map-All _ (IsRoute all authorizers) v.made (
        All-map (λ made. IsTask ec'.methods made.0 made.1) _ v.made
          (λ made t. record {
            endpoint = ec;
            listed = listed;
            task = subst (λ ms. IsTask ms made.0 made.1) methods t;
            path = ap (λ p. p <> made.1.path) path;
            guarded = refl;
            same_guards = guards;
            method_guards = λ m.
                method_authorizers-visit compile reg ignored ec' ec'.methods start v m refl visited
                ∙ ap (λ ms. method_authorizers (lookup m ms)) methods;
          })
          (visit-All ec'.methods ec' ec'.methods start v (members ec'.methods) tt visited))

  routes_from-All :
      (authorizers : Authorizers W) (all rest : List EndpointConfig) (rs : List (Route W))
      → All (λ ec. Memᴰ ec all) rest
      → routes_from compile reg ignored authorizers rest ≡ ok rs
      → All (IsRoute all authorizers) rs
  unfolding routes_from
  routes_from-All authorizers all [] rs listed h =
      subst (All (IsRoute all authorizers)) (ok-injective h) tt
  routes_from-All authorizers all (ec ∷ rest) rs listed h =
      let (ec', valid, h₁) = >>=-eq-ok (validate_endpoint compile ec) _ h in
      let (v, visited, h₂) = >>=-eq-ok (visit compile reg ignored ec' ec'.methods start) _ h₁ in
      let (more, others, h₃) = >>=-eq-ok (routes_from compile reg ignored authorizers rest) _ h₂ in
      subst (All (IsRoute all authorizers)) (ok-injective h₃) (
        All-append (IsRoute all authorizers) (routes_of compile reg ignored authorizers ec' v) more
          (routes_of-All authorizers all ec ec' v listed.0 valid visited)
          (routes_from-All authorizers all rest more listed.1 others))

  -- Every route of a server comes from an endpoint of its configuration and one of the endpoint's
  -- methods, whose type is not ignored: its task was made by the factory registered for the method's
  -- trimmed type, its path is the endpoint's before the task's, and it is guarded by the authorizers
  -- of the configuration, under the endpoint's own names and those of its methods.
  pub routes-IsRoute :
      (decimal : ℕ → String) (factories : Dict (AuthorizerFactory W)) (config : Config)
      (rs : List (Route W))
      → routes compile reg ignored decimal factories config ≡ ok rs
      → (authorizers : Authorizers W) × (get_authorizers decimal factories config ≡ ok authorizers)
        × All (IsRoute config.endpoints authorizers) rs
  unfolding routes
  routes-IsRoute decimal factories config rs h =
      let (authorizers, known, h₁) = >>=-eq-ok (get_authorizers decimal factories config) _ h in
      (
        authorizers,
        known,
        routes_from-All authorizers config.endpoints config.endpoints rs (members config.endpoints)
            h₁,
      )
