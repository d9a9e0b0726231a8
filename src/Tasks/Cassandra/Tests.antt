-- ===== src/Tasks/Cassandra/Tests.antt =====
-- The cassandra task at a concrete configuration.
use goexpose.Common.{[], ok, refl, some, true, ◌∷◌, ◌≡◌}
use goexpose.Tasks.Cassandra
use goexpose.Tasks.Cassandra.{Cassandra, CassandraConfig}
use goexpose.Text.{trim_space}
use goexpose.Tasks.Single.{single_index}
use goexpose.Value.{pos}

abbrev cassandra_config : CassandraConfig
cassandra_config = record {
  queries =
      record { cluster = "localhost" ∷ []; keyspace = "space"; query = "SELECT 1"; args = [] } ∷ [];
  return_queries = true;
  single_result = some (pos 0);
  single_result_index = pos 0;
}

validates_cassandra : Cassandra.validate cassandra_config ≡ ok cassandra_config
unfolding Cassandra.validate Cassandra.validate_queries Cassandra.validate_query trim_space
    single_index
validates_cassandra = refl
