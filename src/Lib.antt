-- ===== src/Lib.antt =====
-- The Go code that starts the Zabbix containers, under templates/entrypoints/internal.
--
-- An entrypoint reads the environment of the container (bootstrap), resolves the secrets that it names,
-- writes the configuration files of the service (config), initializes the database (mysql, postgresql) and
-- hands over to the service's binary. The packages share the environment, a map that each step changes, and
-- the file system. The files of this library follow the packages:
--
--   Base               Go's lists, maps, strings, paths and number formats, and what is proved once of them
--   Bootstrap          templates/entrypoints/internal/bootstrap
--     Environment      environment.go, whole
--     Indexed          indexed.go, whole: the variables PREFIX_0, PREFIX_1, ...
--     Retry            retry.go: Retry and Stop
--     SqlFile          ReadSQLFile of files.go
--     Command          command.go: which command a container runs
--     SecretRegistry   secret_registry.go: which secrets a component needs; provider_secrets.go is
--                      ProviderSecrets
--     SecretFiles      secret_files.go: from where a secret is taken
--     Managed          secret_files.go: the directory of generated secrets; Managed.Stale clears it
--     SecretDirs, SecretCa  secret_ca.go: the directories of certificates, and what is copied into them
--     VaultTls         secret_files.go: the certificate and the key for Vault
--     Secrets          secrets.go: ResolveSecrets
--     Files            files.go: files and links that are replaced
--     Database         database.go, and ResolveFile of files.go
--   Config             templates/entrypoints/internal/config
--     Parameters       parameters.go on the lines of a file
--     Rules            parameters.go on files, tool_access_rules.go, item_key_rules.go
--     Agent            agent.go
--   Vault              templates/entrypoints/internal/vault: the replies and URLs; Vault.Tls is the TLS
--                      settings and LoadCAPool of bootstrap/tls.go, Vault.Request one request with its
--                      repetitions, Vault.Fetch the whole
--   Mysql              templates/entrypoints/internal/mysql
--     SqlScript        sqlscript.go
--     Tls              tls.go
--     Database         database.go: Configure and ExportEnv
--     Connection       connection.go: sessions, and the wait for the server
--     Schema           schema.go: Prepare
--   Postgresql         templates/entrypoints/internal/postgresql: Endpoints, Database, Connection and
--                      Schema are the files of these names
--   Storageprovider    templates/entrypoints/internal/storageprovider: Fields and Options are json.go, Indexed
--                      indexed.go, Families history.go and telemetry.go, Parameter the validation of
--                      schema.go, Configuration configuration.go and ConfigureNative, Web WebProviders
--   Tests              the definitions at concrete inputs
--
-- A function keeps its name in snake_case. A function that changes the environment takes it and returns the
-- new one. A map is an association list; its order is the order of one run's iteration, which Go leaves
-- open. A function that calls the operating system is a state-passing function over an arbitrary state of
-- the world (Base.Exec); what it calls is a parameter. An error is a value of a data type with the places
-- of the source where an error is made; the texts of messages and the log lines are left out.
--
-- Texts that are cut or searched are lists of characters (Base.Texts): the code works on bytes, and looks
-- for ASCII characters alone, so both find the same places in valid UTF-8. int has 64 bits; an index and a
-- length are natural numbers, the number of attempts of Retry is an integer. Paths are those of a Unix system.
--
-- Two loops run on fuel. Retry may run for ever when Attempts is 0, as in the wait for a database
-- (Base.Partial); with a limit, as in a request to Vault, one unit more than the limit is enough. The loop of the SQL splitter's write gets one unit for each character of the line, and
-- each round consumes at least one, because a delimiter is never empty.
--
-- HTTP, JSON, certificates, the SQL drivers and the files are records of operations over the state of the
-- world. A session with a database is the record of its methods. A time limit is its number of seconds, and
-- passes no time.
--
-- Not modelled: processes, signals, file descriptors and permissions; the packages
-- storageinit, server, proxy, web, clickhouse, elasticsearch, sqlite, snmptraps and javagateway; the
-- names that rehash_unix.go gives to certificates; Windows.
pub mod Base
pub mod Bootstrap
pub mod Config
pub mod Mysql
pub mod Postgresql
pub mod Storageprovider
pub mod Tests
pub mod Vault
