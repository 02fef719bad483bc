-- ===== src/App/Database.antt =====
-- app/db/session.py: the engine of the process, and the columns that an older table of keys lacks. The
-- engine is its URL; of the database it is the columns of `api_keys` that matter, if there is the table.
use ollama_proxy.Prelude.{
  String, Bool, true, false, not, Option, none, some, List, [], ◌∷◌, ◌++◌, str_eq, if◌then◌else◌,
  or_else, keep,
}
use ollama_proxy.Exec.{Exec, Result, returned, raised, runtime_error, integrity_error, pure, ◌>>◌}

abbrev pub usage_columns : List (String × String)
usage_columns =
    ("account_email", "VARCHAR(255)")
    ∷ ("account_name", "VARCHAR(255)")
    ∷ ("account_plan", "VARCHAR(32)")
    ∷ ("account_id", "VARCHAR(64)")
    ∷ ("last_usage_fetch_at", "TIMESTAMP")
    ∷ ("last_usage_session", "INTEGER")
    ∷ ("last_usage_weekly", "INTEGER")
    ∷ ("last_usage_models_json", "TEXT")
    ∷ ("session_prompt_tokens", "INTEGER DEFAULT 0 NOT NULL")
    ∷ ("session_completion_tokens", "INTEGER DEFAULT 0 NOT NULL")
    ∷ ("session_window_started_at", "TIMESTAMP")
    ∷ ("weekly_prompt_tokens", "INTEGER DEFAULT 0 NOT NULL")
    ∷ ("weekly_completion_tokens", "INTEGER DEFAULT 0 NOT NULL")
    ∷ ("weekly_window_started_at", "TIMESTAMP")
    ∷ ("last_token_at", "TIMESTAMP")
    ∷ ("last_usage_session_fraction", "REAL")
    ∷ ("last_usage_weekly_fraction", "REAL")
    ∷ []

-- The columns of `api_keys`, and nothing where there is no such table.
abbrev pub Schema : Type 0
Schema = Option (List String)

abbrev pub has_column : String → List String → Bool
has_column name [] = false
has_column name (column ∷ columns) = if str_eq column name then true else has_column name columns

-- ALTER TABLE api_keys ADD COLUMN: an error of the database without the table or with the column.
abbrev pub add_to : String → Option (List String) → Result (Unit {0}) × Schema
add_to name none = (raised integrity_error, none)
add_to name (some columns) =
    if has_column name columns
    then (raised integrity_error, some columns)
    else (returned tt, some (columns ++ name ∷ []))

abbrev pub add_column : String → Exec Schema (Unit {0})
add_column name schema = add_to name schema

unfoldable pub add_columns : List (String × String) → Exec Schema (Unit {0})
add_columns [] = pure tt
add_columns ((name, ddl) ∷ rest) = do add_column name; add_columns rest

-- `[(name, ddl) for name, ddl in _USAGE_COLUMNS if name not in existing]`
abbrev pub missing_columns : List String → List (String × String) → List (String × String)
missing_columns existing = keep (λ c. not (has_column c.0 existing))

-- `_ensure_usage_columns`
unfoldable pub ensure_usage_columns : Exec Schema (Unit {0})
unfolding add_columns
ensure_usage_columns schema = add_columns (missing_columns (or_else schema []) usage_columns) schema

-- The globals of the module: the engine's URL, and whether there is a session factory.
pub record Engine : Type 0 where
  pub url : Option String
  pub has_factory : Bool

-- `Base.metadata.create_all`: the tables that are not there, with the columns of the models.
abbrev pub create_all : List String → Schema → Schema
create_all model_columns none = some model_columns
create_all model_columns (some columns) = some columns

-- A second call finds the engine there, with a factory or without.
abbrev pub init_at :
    List String → String → Option String → Engine × Schema → Result String × Engine × Schema
unfolding ensure_usage_columns
init_at model_columns url (some known) (engine, schema) = (returned known, engine, schema)
init_at model_columns url none (engine, schema) =
    let (result, schema') = ensure_usage_columns (create_all model_columns schema) in
    (
      (elim result [ raised e ↦ raised e | returned _ ↦ returned url ]),
      record { url = some url; has_factory = true },
      schema',
    )

unfoldable pub init_engine :
    List String → String → Engine × Schema → Result String × Engine × Schema
unfolding ensure_usage_columns
init_engine model_columns url s = init_at model_columns url s.0.url s

unfoldable pub dispose_engine : Engine → Engine
dispose_engine engine = record { url = none; has_factory = false }

unfoldable pub get_engine : Engine → Result String
get_engine engine = elim engine.url [ none ↦ raised runtime_error | some url ↦ returned url ]

unfoldable pub get_session_factory : Engine → Result (Unit {0})
get_session_factory engine = if engine.has_factory then returned tt else raised runtime_error
