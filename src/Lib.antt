-- ===== src/Lib.antt =====
-- The OpenSearch operator and the DBaaS adapter of OpenSearch, as functions on events.
--
-- The operator (controllers, disasterrecovery, util) switches two OpenSearch clusters between the
-- modes "active", "standby" and "disable", replicates the active one into the standby one, and keeps
-- the replication alive. The adapter (opensearch-dbaas-adapter) serves a DBaaS aggregator: it
-- creates databases, users and roles, recovers users, takes and restores backups through the
-- curator, and registers itself. The operator asks
-- the aggregator and the adapter to recover the users at the end of a switchover.
--
-- How code is translated. A Go function that does input and output is an action, `Exec A` of
-- Http/Action: it takes the list of the events so far and returns a result (a value, an error or a
-- panic) and the longer list. Requests, sleeps, changes of Kubernetes resources, and changes of the
-- operator's own state that others see are events. What answers is a `World` of Http/Types, any
-- function of the events so far: a cluster, the Kubernetes API, the random UUIDs, regexp.Compile.
-- Every theorem with a world holds for all of them, so also for one that fails at any point or that
-- others change meanwhile. `err` and `return err` are in the action; where the code looks at an
-- error itself, `attempt` gives it as a value. Log messages are left out, and an error keeps the
-- constant part of its text.
--
-- Json: documents, and what encoding/json makes of them at the types of the program.
-- Http: util/rest_client.go, with the events, the worlds and the actions. Its children have
--   the rules that the proofs use: Trace what an action adds to the events, Yields what holds of the
--   value that it returns, Success what a success has gone through, Staged and Starts what comes last
--   or first, Automaton how its events drive a state. Poll is the poll of the package wait, as it is
--   documented.
-- Replication: controllers/replication_manager.go. Stats has the types it decodes, Manager the rule
--   and the replication of single indices, Check executeReplicationCheck, Indices the deletions.
--   Stopping, Deletion, Rule and Progress prove their properties.
-- DisasterRecovery: Checker is disasterrecovery/replication_checker.go and Health the handler of
--   disasterrecovery/disaster_recovery_server.go; Verdict and Endpoint are about them. Process,
--   Switchover, Recovery, Resource and Configure are controllers/disaster_recovery_reconciler.go: the
--   steps on the replication, the switchovers, recoverUsers, what Configure reads and keeps, and
--   Configure with its deferred calls. Restart and
--   Watcher are controllers/replication_watcher.go: a round of the check as an action, and the
--   goroutines, the state and the lock as a step relation with the reconciler beside them.
-- Conditions: controllers/condition.go.
-- Adapter: Transport has the requests of opensearch-dbaas-adapter/api; Users is patchUsers of
--   basic/user.go; Recovery is basic/users_recovery.go; Backup is backup/backup.go in five parts, the
--   curator, the snapshots, the restore with new names for indices and the one for databases, and the
--   handlers.
--   Resources and Deletion are the bulk drop of basic/basic.go: the reads and the deletions of single
--   resources, what a prefix stands for, and the handler. Databases and Metadata are the rest of it, the
--   creation of a database with its users, which are in Accounts (basic/user.go), and its metadata.
--   Roles and RoleMapping are basic/role.go and basic/rolemapping.go; Startup is what server/server.go
--   does with them before it serves. Registration is physical/physical.go, and Health is cluster/cluster.go
--   and health/health.go. Trace has what the requests add to the events. Background is common/background.go, a
--   queue of works with one goroutine, as a step relation; its Contract is the service that the comments
--   there promise.
-- Opensearch: controllers/opensearch_reconciler.go, with what it calls of
--   controllers/opensearchservice_reconciler.go. Rolling is Reconcile, the rolling update, with Pods,
--   which restarts the pods, and Settings, the settings and the health of the cluster. Security is
--   Configure, with Credentials, Mapping and Snapshots; Secrets are the secrets that they read. What the
--   reads of Kubernetes give, at any time, is the record Kube; its changes are calls of the world. The
--   sets of pods are in the state that the resource keeps, which the functions take and return.
-- Controller: the other reconcilers of controllers, which restart a deployment when a secret has changed.
--   Cycle is Reconcile of controllers/opensearchservice_controller.go, over any reconcilers: they are a
--   record of the interface's functions, for each part that the resource has. The stored hashes are
--   read from the events. Monitoring is the one of the monitoring, over an interface of the slow log
--   watcher.
-- SlowLog: controllers/slowlog_indices_watcher.go, as a step relation like that of Watcher. A request
--   for the settings may fail, and the indices may have settings before the operator starts.
-- Witnesses: runs in concrete worlds.
--
-- Bounds. The loop over batches in Adapter/Recovery has as many rounds as there are users, which is
-- enough: its end is proved. A poll of the package wait ends by a clock, so the number of its
-- attempts is an argument, and so is the number of rounds of recoverUsers, which has no bound in the
-- code; so are the rounds of the migration in Registration. A run that is not over by then has no
-- result. Counts of replicas are numbers without a bound: the code only counts them down from an int32
-- and compares them. A Go map is an association list, in the order
-- in which a `range` loop meets its keys.
--
-- Not modelled: main programs, servers, TLS and certificates, the reads of config maps
-- and of the secrets for the disaster recovery (their results are arguments), metrics and logs; the
-- setup of the controller with its event filter; the adapter's routes.
pub mod Prelude
pub mod Json
pub mod Http
pub mod Replication
pub mod DisasterRecovery
pub mod Opensearch
pub mod Controller
pub mod Conditions
pub mod SlowLog
pub mod Adapter
pub mod Witnesses
