-- ===== src/Platform/Control/Connection.antt =====
-- How to connect to a database (`get_database_connection` of
-- backend/app/api/v1/endpoints/databases.py).
use eminidatabase.Base.{ℕ, Bool, true, false, not, Option, none, some, List, ◌==◌, ◌&&◌}
use eminidatabase.Base.Table.{lookup, rows}
use eminidatabase.Base.Action.{◌>>=◌, ◌>>◌, pure, raise_if, found, reads, scalar_one_or_none}
use eminidatabase.Platform.Placement.{DatabaseStatus}
use eminidatabase.Platform.Rbac.{database_connect}
use eminidatabase.Platform.Control.{
  Tx, not_found, conflict, multiple_results, DatabaseCredential, get_database_or_404,
}
use eminidatabase.Platform.Control.Orchestrator.{is_app}
use eminidatabase.Platform.Control.Databases.{Caller, authorize_active}

-- `status in (RUNNING, SUSPENDED)`
abbrev pub is_connectable : DatabaseStatus → Bool
is_connectable DatabaseStatus.running = true
is_connectable DatabaseStatus.suspended = true
is_connectable _ = false

pub record DatabaseConnection : Type 0 where
  pub host : ℕ
  pub port : Option ℕ
  pub database : List ℕ
  pub username : List ℕ
  pub password : ℕ

-- The credential of the role that the request names, or of the application's role.
abbrev pub credential_for : (database_id : ℕ) → (credential_id : Option ℕ) → Tx DatabaseCredential
credential_for database_id (some credential_id) = do
  credential ← found not_found (← reads (λ s. lookup credential_id s.credentials))
  raise_if (not (credential.database_id == database_id)) not_found
  pure credential
credential_for database_id none = do
  credential ←
      scalar_one_or_none multiple_results
        (← reads (λ s. rows (λ c. c.database_id == database_id && is_app c.scope) s.credentials))
  row ← found conflict credential
  pure row.1

unfoldable pub get_database_connection :
    (decrypt_secret : ℕ → ℕ)
    → Caller
    → (database_id : ℕ) (credential_id : Option ℕ) → Tx DatabaseConnection
get_database_connection decrypt_secret c database_id credential_id = do
  authorize_active c database_connect
  database ← get_database_or_404 c.project_id database_id
  raise_if (not (is_connectable database.status)) conflict
  credential ← credential_for database_id credential_id
  host ← found conflict database.connection_host
  pure (record {
    host = host;
    port = database.connection_port;
    database = database.physical_name;
    username = credential.role_name;
    password = decrypt_secret credential.encrypted_password;
  })
