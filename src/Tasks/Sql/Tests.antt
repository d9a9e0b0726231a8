-- ===== src/Tasks/Sql/Tests.antt =====
-- The postgres and the mysql task at concrete inputs.
use goexpose.Common.{Error, [], String, false, inr, none, ok, refl, some, true, ◌∷◌, ◌≡◌, ◌⊎◌}
use goexpose.Config.{TaskConfig}
use goexpose.Tasks.{task}
use goexpose.Tasks.Mysql
use goexpose.Tasks.Mysql.{MysqlConfig, mysql_task_factory}
use goexpose.Tasks.Mysql.Answer.{AnswersFirst, mysql_task-AnswersFirst}
use goexpose.Tasks.Postgres
use goexpose.Tasks.Postgres.{PostgresConfig}
use goexpose.Tasks.Postgres.Queries.{Queried, postgres_query-Queried}
use goexpose.Tasks.Item.{blank, run_item}
use goexpose.Tasks.Item.Chain.{Chained}
use goexpose.Tasks.Postgres.Answer.{postgres_run-Chained}
use goexpose.Tasks.Single.{single_index}
use goexpose.Tasks.Sql.{Query, Sql}
use goexpose.Value.{negsuc, pos}
use goexpose.Tasks.Sample.{plain, request}

-- A database whose one table has no rows.
abbrev sql : Sql (Unit {0}) (Unit {0})
sql = record { connect = λ url w. (inr tt, w); query = λ db query args w. (inr [], w) }

abbrev select : Query
select = record { url = "db"; query = "SELECT 1"; args = "x" ∷ [] }

abbrev postgres : PostgresConfig
postgres = record {
  queries = select ∷ [];
  return_queries = true;
  single_result = none;
  single_result_index = pos 0;
}

abbrev checked_postgres : PostgresConfig
checked_postgres = record postgres { single_result_index = negsuc 0 }

validates_postgres : Postgres.validate postgres ≡ ok checked_postgres
unfolding Postgres.validate single_index
validates_postgres = refl

abbrev mysql : MysqlConfig
mysql = record {
  return_queries = false;
  queries = select ∷ select ∷ [];
  single_result = some (pos 1);
  single_result_index = pos 0;
}

abbrev unmarshal : String → MysqlConfig → Error ⊎ MysqlConfig
unmarshal text target = inr mysql

abbrev mysql_task : TaskConfig
mysql_task = record {
  type = "mysql";
  authorizers = [];
  config = "";
  query_params = none;
  description = "";
}

mysql_task-AnswersFirst_example :
    (mysql_task_factory plain sql unmarshal mysql_task ≡ ok (task (Mysql.run plain sql mysql) ∷ []))
    × AnswersFirst plain sql mysql [] mysql.queries tt (Mysql.run plain sql mysql request [] tt).0
mysql_task-AnswersFirst_example =
    mysql_task-AnswersFirst plain sql unmarshal mysql_task mysql request [] tt refl refl

postgres_query-Queried_example :
    Queried plain sql checked_postgres [] select tt
      (run_item (Postgres.query_steps plain sql checked_postgres [] select) blank tt)
postgres_query-Queried_example = postgres_query-Queried plain sql checked_postgres [] select tt

postgres_run-Chained_example :
    Chained
      (λ q w out. Queried plain sql checked_postgres [] q w out)
      none
      (select ∷ [])
      tt
      (Postgres.run plain sql checked_postgres request [] tt)
postgres_run-Chained_example =
    postgres_run-Chained plain sql postgres checked_postgres request [] tt validates_postgres
