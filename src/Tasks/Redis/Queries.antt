-- ===== src/Tasks/Redis/Queries.antt =====
-- How a query of a redis task comes to its response.
use mathlib.Core.Path.{subst}
use goexpose.Common.{
  Error, List, Option, Option-cases, String, Sum-cases, ap, if◌then◌else◌, inl, inr, new, none, ok,
  refl, some, sym, ◌∙◌, ◌≡◌, ◌⊎◌,
}
use goexpose.Dict.{Dict, lookup}
use goexpose.Response.{Response, add_value, set_error, set_result}
use goexpose.Tasks.Item
use goexpose.Tasks.Item.{Item, attempt, blank, check, give, interpolate_all, put_if, run_item}
use goexpose.Tasks.Item.Steps.{
  >>=-none, >>=-some, attempt-inl, attempt-inr, check-inl, check-inr, interpolate_all-none,
  interpolate_all-some, put_if-some, rendered, run_item-eq,
}
use goexpose.Tasks.Redis.{
  Redis, RedisConfig, RedisQuery, convert, found, get_reply, query_steps, understands,
  validate_query,
}
use goexpose.Tasks.Redis.Answer.{IsUnderstood, validate_query-IsUnderstood}
use goexpose.Utils.{Interpolate}
use goexpose.Value.{Value, arr, error, str, strings}

module _ {W Conn Reply : Type 0} (interpolate : Interpolate) (redis : Redis W Conn Reply)
    (c : RedisConfig) (conn : Conn) (vars : Dict Value) (q : RedisQuery) where
  -- The response once the arguments are known.
  abbrev shown : List String → Response
  shown args =
      let named = if c.return_queries then add_value "command" (str q.command) blank else blank in
      if c.return_queries then add_value "args" (arr (strings args)) named else named

  -- The response of a query, and the state that it leaves.
  pub data Replied (w : W) : Response × W → Type 0 where
    unrendered :
        (e : Error)
        → rendered interpolate vars q.args ≡ inl e
        → Replied w (set_error (error e) blank, w)
    failed :
        (args : List String) (e : Error) (w₁ : W)
        → rendered interpolate vars q.args ≡ inr args
        → redis.do_command conn q.command args w ≡ (inl e, w₁)
        → Replied w (set_error (error e) (shown args), w₁)
    missing :
        (args : List String) (w₁ : W)
        → rendered interpolate vars q.args ≡ inr args
        → redis.do_command conn q.command args w ≡ (inr none, w₁)
        → Replied w (set_error (error (new "not found")) (shown args), w₁)
    unconverted :
        (args : List String) (reply : Reply) (fn : Reply → Error ⊎ Value) (e : Error) (w₁ : W)
        → rendered interpolate vars q.args ≡ inr args
        → redis.do_command conn q.command args w ≡ (inr (some reply), w₁)
        → lookup q.type (understands redis) ≡ some fn
        → fn reply ≡ inl e
        → Replied w (set_error (error e) (shown args), w₁)
    replied :
        (args : List String) (reply : Reply) (fn : Reply → Error ⊎ Value) (value : Value) (w₁ : W)
        → rendered interpolate vars q.args ≡ inr args
        → redis.do_command conn q.command args w ≡ (inr (some reply), w₁)
        → lookup q.type (understands redis) ≡ some fn
        → fn reply ≡ inr value
        → Replied w (set_result value (shown args), w₁)

  abbrev after_found : Reply → Item W (Unit {0})
  after_found reply = Item.◌>>=◌ (check (get_reply redis reply q)) λ value. give value

  abbrev after_command : Option Reply → Item W (Unit {0})
  after_command answer = Item.◌>>=◌ (check (found redis answer)) after_found

  abbrev after_args : List String → Item W (Unit {0})
  after_args args = Item.◌>>=◌ (attempt (redis.do_command conn q.command args)) after_command

  reach_command :
      {args : List String} (w : W)
      → rendered interpolate vars q.args ≡ inr args
      → query_steps interpolate redis c conn vars q blank w ≡ after_args args (shown args) w
  unfolding query_steps
  reach_command {args} w good =
      >>=-some (interpolate_all interpolate vars q.args) _
        (interpolate_all-some interpolate vars q.args blank w good)
      ∙ >>=-some (put_if c.return_queries "command" (str q.command)) _
          (put_if-some c.return_queries "command" (str q.command) blank w)
      ∙ >>=-some (put_if c.return_queries "args" (arr (strings args))) _
          (put_if-some c.return_queries "args" (arr (strings args)) _ w)

  of_chain :
      {w w' : W} {o : Option (Unit {0})} {r : Response}
      → query_steps interpolate redis c conn vars q blank w ≡ (o, r, w')
      → Replied w (r, w')
      → Replied w (run_item (query_steps interpolate redis c conn vars q) blank w)
  of_chain {w} chain h =
      subst (Replied w)
        (sym (run_item-eq (query_steps interpolate redis c conn vars q) blank w chain)) h

  converted :
      (args : List String) (reply : Reply) (fn : Reply → Error ⊎ Value) (w w₁ : W)
      → rendered interpolate vars q.args ≡ inr args
      → redis.do_command conn q.command args w ≡ (inr (some reply), w₁)
      → lookup q.type (understands redis) ≡ some fn
      → Replied w (run_item (query_steps interpolate redis c conn vars q) blank w)
  unfolding give get_reply
  converted args reply fn w w₁ good asked known =
      let reached =
        reach_command w good
        ∙ >>=-some (attempt (redis.do_command conn q.command args)) after_command
            (attempt-inr (redis.do_command conn q.command args) (shown args) asked)
        ∙ >>=-some (check (found redis (some reply))) after_found
            (check-inr (shown args) w₁ refl) in
      let named = ap (λ o. convert redis o reply q) known in
      elim (Sum-cases (fn reply)) [
        | inl (e, bad) ↦
            of_chain
              (reached
                ∙ >>=-none (check (get_reply redis reply q)) _
                    (check-inl (shown args) w₁ (named ∙ bad)))
              (unconverted args reply fn e w₁ good asked known bad)
        | inr (value, fine) ↦
            of_chain
              (reached
                ∙ >>=-some (check (get_reply redis reply q)) _
                    (check-inr (shown args) w₁ (named ∙ fine)))
              (replied args reply fn value w₁ good asked known fine)
      ]

  commanded :
      (args : List String) (w : W)
      → rendered interpolate vars q.args ≡ inr args
      → IsUnderstood redis q
      → Replied w (run_item (query_steps interpolate redis c conn vars q) blank w)
  commanded args w good understood =
      let w₁ = (redis.do_command conn q.command args w).1 in
      elim (Sum-cases (redis.do_command conn q.command args w).0) [
        | inl (e, bad) ↦
            let call = ap (λ x. (x, w₁)) bad in
            of_chain
              (reach_command w good
                ∙ >>=-none (attempt (redis.do_command conn q.command args)) after_command
                    (attempt-inl (redis.do_command conn q.command args) (shown args) call))
              (failed args e w₁ good call)
        | inr (o, given) ↦ elim (Option-cases o) [
          | inl nothing ↦
              let call = ap (λ x. (x, w₁)) given ∙ ap (λ x. (inr x, w₁)) nothing in
              of_chain
                (reach_command w good
                  ∙ >>=-some (attempt (redis.do_command conn q.command args)) after_command
                      (attempt-inr (redis.do_command conn q.command args) (shown args) call)
                  ∙ >>=-none (check (found redis none)) after_found
                      (check-inl (shown args) w₁ refl))
                (missing args w₁ good call)
          | inr (reply, something) ↦
              converted args reply understood.convert w w₁ good
                (ap (λ x. (x, w₁)) given ∙ ap (λ x. (inr x, w₁)) something) understood.known
        ]
      ]

  -- A query of a redis task that validates gives the error of the first of its steps that fails: one
  -- of its arguments in their order, the command, a reply that is nil, the conversion of the reply.
  -- From the command on, the command and its rendered arguments stand beside it where they are to be
  -- returned. Where no step fails, the result is the reply, converted by the function that the query's
  -- type names. No command is sent where an argument fails.
  pub redis_query-Replied :
      (w : W)
      → validate_query redis q ≡ ok tt
      → Replied w (run_item (query_steps interpolate redis c conn vars q) blank w)
  unfolding query_steps
  redis_query-Replied w valid = elim (Sum-cases (rendered interpolate vars q.args)) [
    | inl (e, bad) ↦
        of_chain
          (>>=-none (interpolate_all interpolate vars q.args) _
            (interpolate_all-none interpolate vars q.args blank w bad))
          (unrendered e bad)
    | inr (args, good) ↦ commanded args w good (validate_query-IsUnderstood redis q valid)
  ]
