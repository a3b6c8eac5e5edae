-- ===== src/Mysql/Schema/Ordering.antt =====
-- The statements of a script, in their order, and the schema that is there already.
use zabbix_docker.Base.{
  ℕ, suc, ◌+◌, ◌<◌, String, ◌≡◌, refl, ap, ◌∙◌, inl, inr, List, [], ◌∷◌, ◌++◌, map, arith, nat_eq,
  char_eq, list_eq, Result, ok, err, Result-cases, length, take, Text, of_text,
}
use zabbix_docker.Base.Lists.{append-snoc}
use zabbix_docker.Bootstrap.SqlFile.{SqlFileOps}
use zabbix_docker.Mysql.Database.{Db}
use zabbix_docker.Mysql.Connection.{DbError, DbSession, Client}
use zabbix_docker.Mysql.Schema.{ScriptFailure, execute_statement, execute_statements}

-- What a run of statements leaves in the log of the server: all of them, or those up to the one that
-- failed, whose number the error has.
abbrev pub IsRun :
    String → ℕ → List Text → List String → Result ScriptFailure (Unit {0}) → List String → Type 0
IsRun path index statements before (ok _) after = after ≡ before ++ map of_text statements
IsRun path index statements before (err e) after =
    (k : ℕ) × (x : DbError) × (k < length statements)
    × (e ≡ execute_statement path (index + suc k) x)
    × (after ≡ before ++ map of_text (take (suc k) statements))

append-nil : (s : List String) → s ≡ s ++ []
append-nil [] = refl
append-nil (y ∷ s) = ap (◌∷◌ y) (append-nil s)

module _ {W Pool Cert Reader : Type 0} (client : Client W Pool Cert) (files : SqlFileOps W Reader)
    (db : Db) (session : DbSession W) (path : String) (log : W → List String)
    (exec_logs : (text : String) (args : List String) (w : W)
      → log (session.exec text args w).1 ≡ log w ++ (text ∷ [])) where
  IsRun-cons :
      (index : ℕ) (statement : Text) (statements : List Text) (before : List String)
      (r : Result ScriptFailure (Unit {0})) (after : List String)
      → IsRun path (index + 1) statements (before ++ (of_text statement ∷ [])) r after
      → IsRun path index (statement ∷ statements) before r after
  IsRun-cons index statement statements before (ok _) after h =
      h ∙ append-snoc before (map of_text statements) (of_text statement)
  IsRun-cons index statement statements before (err e) after (k, x, n, error, h) = (
    suc k,
    x,
    omega arith,
    error ∙ ap (λ (m : ℕ). execute_statement path m x) (omega arith),
    h ∙ append-snoc before (map of_text (take (suc k) statements)) (of_text statement),
  )

  -- The statements of a script are executed in their order, each once. At the first that fails nothing
  -- more is executed, and the error has its number in the script, counted from the given index on. A session
  -- logs what it is asked to execute.
  pub execute_statements-IsRun :
      (index : ℕ) (statements : List Text) (w : W)
      → IsRun path index statements
          (log w)
          (execute_statements client files db session path index statements w).0
          (log (execute_statements client files db session path index statements w).1)
  unfolding execute_statements
  execute_statements-IsRun index [] w = append-nil (log w)
  execute_statements-IsRun index (statement ∷ statements) w =
      elim (Result-cases (session.exec (of_text statement) [] w).0) [
        | inl (_, e) ↦
            rw (e, execute_statements)
              (IsRun-cons index statement statements (log w) _ _ (
                rw (exec_logs (of_text statement) [] w) at (
                  execute_statements-IsRun (index + 1) statements
                    (session.exec (of_text statement) [] w).1)))
        | inr (x, e) ↦
            rw (e, execute_statements)
              (
                0,
                x,
                omega arith,
                ap (λ (m : ℕ). execute_statement path m x) (omega arith),
                exec_logs (of_text statement) [] w,
              )
      ]
