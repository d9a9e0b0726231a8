-- ===== src/Tasks.antt =====
-- tasks.go and interfaces.go: the tasks. Each kind has a module of its own; `Single` has the choice
-- of a single result, and `Item` the steps of one command, address or query of a task.
pub mod Single
pub mod Item
pub mod Shell
pub mod Sql
pub mod Postgres
pub mod Mysql
pub mod Redis
pub mod Cassandra
pub mod Multi
pub mod Info
pub mod Files
pub mod Web
pub mod Sample
pub mod Tests
use goexpose.Common.{String}
use goexpose.Dict.{Dict}
use goexpose.Effect.{Io}
use goexpose.Request.{Request}
use goexpose.Response.{Response}
use goexpose.Value.{Value}

-- The interface of a task: its path, and its `Run` method, which receives the request and the data
-- for the templates.
pub record Tasker (W : Type 0) : Type 0 where
  pub path : String
  pub run : Request → Dict Value → Io W Response

-- The embedded `Task` of every task has the blank path.
abbrev pub task : {W : Type 0} → (Request → Dict Value → Io W Response) → Tasker W
task run' = record { path = ""; run = run' }
