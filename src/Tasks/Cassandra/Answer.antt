-- ===== src/Tasks/Cassandra/Answer.antt =====
-- What a validated cassandra task answers.
use goexpose.Common.{
  All, Bool-cases, List, [], false, inl, inr, length, new, ok, ◌=ℕ◌, ◌==◌, ◌≡◌, ◌∷◌, >>=-eq-ok,
  ok-injective,
}
use goexpose.Dict.{Dict}
use goexpose.Request.{Request}
use goexpose.Tasks.Cassandra.{
  Cassandra, CassandraConfig, CassandraQuery, query_steps, run, validate, validate_queries,
  validate_query,
}
use goexpose.Tasks.Item.Answers.{items-Answers}
use goexpose.Tasks.Item.Outcome.{Ends, IsSettled}
use goexpose.Tasks.Item.Rules.{item_rules}
use goexpose.Tasks.Single.{Answers, single_index}
use goexpose.Text.{trim_space}
use goexpose.Utils.{Interpolate}
use goexpose.Value.{Value}

-- The query has a host and a keyspace that is not blank.
abbrev pub HasCluster : CassandraQuery → Type 0
HasCluster q = ((length q.cluster =ℕ 0) ≡ false) × ((trim_space q.keyspace == "") ≡ false)

validate_query-HasCluster : (q : CassandraQuery) → validate_query q ≡ ok tt → HasCluster q
unfolding validate_query
validate_query-HasCluster q h = elim (Bool-cases (length q.cluster =ℕ 0)) [
  | inl e ↦ cc (rw e at h)
  | inr e ↦ elim (Bool-cases (trim_space q.keyspace == "")) [
    | inl f ↦ cc (rw (e, f) at h)
    | inr f ↦ (e, f)
  ]
]

validate_queries-All : (qs : List CassandraQuery) → validate_queries qs ≡ ok tt → All HasCluster qs
unfolding validate_queries
validate_queries-All [] h = tt
validate_queries-All (q ∷ qs) h =
    let (_, e, k) = >>=-eq-ok (validate_query q) _ h in
    (validate_query-HasCluster q e, validate_queries-All qs k)

validate_sound :
    (c c' : CassandraConfig)
    → validate c ≡ ok c'
    → All HasCluster c'.queries
      × (single_index (new "single_result out of bounds") c'.single_result (length c'.queries)
          ≡ ok c'.single_result_index)
unfolding validate
validate_sound c c' h = elim (Bool-cases (length c.queries =ℕ 0)) [
  | inl e ↦ cc (rw e at h)
  | inr e ↦
      let (_, checked, h₁) = >>=-eq-ok (validate_queries c.queries) _ (rw e at h) in
      let (i, index, h₂) = >>=-eq-ok (single_index _ c.single_result (length c.queries)) _ h₁ in
      let same = ok-injective h₂ in
      (rw (← same) (validate_queries-All c.queries checked), rw (← same) index)
]

module _ {W Session : Type 0} (interpolate : Interpolate) (db : Cassandra W Session) where
  query_steps-Ends :
      (c : CassandraConfig) (vars : Dict Value) (q : CassandraQuery)
      → Ends (query_steps interpolate db c vars q)
  unfolding query_steps
  query_steps-Ends c vars q = search item_rules depth 20

  -- Whatever the request and the cluster do, a validated cassandra task answers with a response for
  -- each query, which has a result or an error and not both, and finishes as its `single_result`
  -- asks; each query has a host and a keyspace.
  pub cassandra_run-Answers :
      (c c' : CassandraConfig) (r : Request) (vars : Dict Value) (w : W)
      → validate c ≡ ok c'
      → All HasCluster c'.queries
        × Answers IsSettled c'.single_result c'.single_result_index
            (length c'.queries)
            (run interpolate db c' r vars w).0
  unfolding run
  cassandra_run-Answers c c' r vars w h =
      let (checked, index) = validate_sound c c' h in
      (
        checked,
        items-Answers (query_steps interpolate db c' vars) c'.queries w _ c'.single_result
            c'.single_result_index (query_steps-Ends c' vars) index,
      )
