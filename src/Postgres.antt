-- ===== src/Postgres.antt =====
-- src/pg.c: the calls of libpq, which is a parameter.
use multi_client_chat_server.Prelude.{
  ℕ, ℤ, pos, negsuc, Bool, Option, none, some, List, Text, if◌then◌else◌,
}

-- The results of PQresultStatus that the code tells apart.
pub data ExecStatus : Type 0 where
  command_ok tuples_ok other_status : ExecStatus

-- libpq: a connection, or none where PQstatus is not CONNECTION_OK; the three ways to run a statement.
pub record Libpq : Type 1 where
  pub Connection : Type 0
  pub connect : Text → Option Connection
  pub exec : Text → Connection → Connection × ExecStatus
  pub prepare : Text → Text → ℕ → Connection → Connection × ExecStatus
  pub exec_prepared : Text → List Text → Connection → Connection × ExecStatus

-- `pg_config_t`
pub record PgConfig : Type 0 where
  pub dsn : Text
  pub enabled : Bool

abbrev success : ℤ
success = pos 0

abbrev failure : ℤ
failure = negsuc 0

abbrev ran : ExecStatus → ℤ
ran command_ok = success
ran tuples_ok = success
ran other_status = failure

abbrev prepared : ExecStatus → ℤ
prepared command_ok = success
prepared other = failure

module _ (l : Libpq) where
  open l use {Connection, connect, exec, prepare, exec_prepared}

  -- `pg_enabled` with `pg_conn` is the connection, if there is one; `compiled` is USE_PG.
  pub pg_init : Bool → Option PgConfig → Option Connection × ℤ
  pg_init compiled none = (none, success)
  pg_init compiled (some cfg) =
      let linked : Option Connection × ℤ = elim (connect cfg.dsn) [
        | none ↦ (none, failure)
        | some c ↦ (some c, success)
      ] in
      if cfg.enabled then if compiled then linked else (none, success) else (none, success)

  pub pg_close : Option Connection → Option Connection
  pg_close link = none

  pub pg_exec : Option Connection → Option Text → Option Connection × ℤ
  pg_exec none sql = (none, failure)
  pg_exec (some c) none = (some c, failure)
  pg_exec (some c) (some sql) = let (c', st) = exec sql c in (some c', ran st)

  pub pg_prepare : Option Connection → Option Text → Option Text → ℕ → Option Connection × ℤ
  pg_prepare none name sql n_params = (none, failure)
  pg_prepare (some c) none sql n_params = (some c, failure)
  pg_prepare (some c) (some name) none n_params = (some c, failure)
  pg_prepare (some c) (some name) (some sql) n_params =
      let (c', st) = prepare name sql n_params c in (some c', prepared st)

  pub pg_exec_prepared : Option Connection → Option Text → List Text → Option Connection × ℤ
  pg_exec_prepared none name params = (none, failure)
  pg_exec_prepared (some c) none params = (some c, failure)
  pg_exec_prepared (some c) (some name) params =
      let (c', st) = exec_prepared name params c in (some c', ran st)
