-- ===== src/Lib.antt =====
-- A verification library for micro-conf, a configuration centre and service registry in Go on a
-- replicated key-value store.
--
-- The program. Every node runs the same HTTP server. The services (service/app, service/cfg,
-- service/conn, user) keep all their state in one key-value store, through the interface of
-- store/raft_store.go; store/raft implements it with hashicorp/raft, which hands each write to the
-- leader, and with badger, which holds a copy of the data on each node. service/base takes the
-- requests that a node redirects to the leader.
--
-- Which file models which part:
-- - Base, Base/Lists, Base/Outcome, Base/Tests: shared names, lists, and Go's errors as values; a
--   run-time panic is an error of its own.
-- - Text/*: byte strings and what the code uses of the packages strings and strconv.
-- - Dict: maps as lists of entries with distinct keys. Statements hold for every order of the
--   entries, as Go iterates over a map in any order.
-- - Json, Commons, Store, Http: interfaces. encoding/json at one type; the strings of go-commons
--   with the laws that the code relies on; RaftStore with its laws; the replies of irisword.
-- - User/Accounts, User/Login: user/store.go, user/user.go, user/admin.go, user/session/session.go
--   (FindUser, storeUserInfo, loginValid, login, register, IsAdmin, initAdminUser).
-- - App/Info, App/Members, App/Roles: service/app/app.go and def.go (newApp, modifyAppInfo,
--   addRole, removeRole, removePart); App/Roles/Race has two calls at once. App/Permission:
--   permission.go. App/UserApps: user_app.go (addApp, removeApp). App/UserApps/Lists: getApps of
--   api.go. App/Manage: manageRole and modifyUserBookmark of api.go. App/Handlers: its other
--   handlers (createApp, modifyApp, appStart, appDetail, the listings) and getServiceInstanceList
--   of service/svc/service.go.
-- - App/Instances: service/app/reg.go (regApp). App/Service: service/app/service.go (ServiceInfos,
--   extractAppInfo). App/Listeners: service/app/cfg.go, and App/Listeners/Namespaces its
--   getNamespaces.
-- - Cfg/Codec, Cfg/Flat: the part of service/cfg/codec.go that diff uses. Cfg/Differ, Cfg/Diff:
--   differ.go (buildNamespaceDiff, diff). Cfg/Admin: cfg_admin.go (createNamespace,
--   removeNamespace, changeNamespaceContent, getNamespaceContent, releaseNamespace). Cfg/History:
--   queryNamespaceHistory and getNamespaces.
-- - Cfg/Yaml: PropertiesToYaml, wordToNode and formatPropertiesToYaml of codec.go. Cfg/Convert and
--   Cfg/DeepPut: its other conversions.
-- - Cfg/Push: service/cfg/change_listener.go (pushChange, doPush, sendFollowerChange).
--   Cfg/Push/Queue has the sends of doPush and the loop of Write of the client side by side, and
--   Cfg/Push/Delivered the texts that the client gets.
-- - Cfg/Client: service/cfg/cfg_api.go (Keys, queryNamespaceContent).
-- - Conn/Heartbeat, Conn/Clients: service/conn/heartbeat.go and client_mgr.go. Conn/Sockets:
--   client.go and websocket.go, with the interleavings of connections as steps (Step, Reach), among
--   them the three steps of Close, which Conn/Sockets/Closing puts together; Conn/Sockets/Written
--   is about the loop of Write.
-- - Raft/Machine: store/raft/fsm.go and command.go. Raft/Node, Raft/Cluster, Raft/Redirect:
--   raft.go, state.go, redirect.go. Raft/Replicas has the state machines of two nodes on the same
--   log. Raft/Refinement fills the interface of Store with them, and Raft/Membership is about
--   Join's counterpart Remove.
-- - Raft/Log: badger_store.go and util.go (StoreLogs, GetLog, DeleteRange, FirstIndex, LastIndex).
--   Raft/Snapshot: fsm_snapshot.go.
-- - Api/Sender: api/client.go.
-- - Api: api/signer.go, api/web_ctx.go (CheckValid), and RequireToken of service/app/permission.go.
-- - Inner: service/base (keyOperation, clusterOperation, get, scan, IsSelf). Inner/Forwarded puts
--   it at the other end of Raft/Redirect.
-- - Server: the routes of service/service.go and user/api.go that change the store, each with its
--   middleware in front of its handler (Route, handle, handle_all). Those of service/base/api.go
--   are among them, which have none: a request to /api/store/key may write any key. Store/Touches
--   says what calls leave alone; Server/Area and Server/Routes say which keys a route may touch,
--   and which requests spare a key (Spares); Server/Records,
--   Changes, Applications, Accounts and Authority are about the records of applications and of
--   users, and Server/Delivery about an edit, its release and the fetch by a client.
-- - Samples, Tests: concrete stores and libraries, and the theorems on concrete inputs.
--
-- How. A call that reads and writes the store is a function from a state to a state and a result
-- (Call of Base/Outcome), a handler one to a state and the replies it writes. An error that the
-- code only logs is dropped, as there. The time, random tokens and the sender's session are
-- arguments. Loops are structural recursions, and three run on fuel. Those on decimal digits have
-- the number itself and one more, which the lemmas on digits show to be enough. DeleteRange has one
-- unit for each transaction, and one more than there are keys is enough (Raft/Log/Healthy).
-- PropertiesToYaml has the number of words of a key (Cfg/Yaml/Fuel), of which wordToNode takes one
-- each time, and its printer the depth of the tree (Cfg/Yaml/Fuel/Printed).
--
-- What is a parameter: yaml.v2 and jsoniter (Formats: a content as a map in the order in which Go
-- ranges over it; diff reads two contents in two calls, whose orders may differ, so it takes two
-- of them, Readings), the changes of the cluster of hashicorp/raft, encoding/json (Json: what is
-- written is read back, as it is for texts in UTF-8), the strings of go-commons (Str), SHA-1 and
-- SHA-256 (functions), badger for the data (Badger) and for the log (LogDb), go-msgpack (Codec),
-- hashicorp/raft and the network (Consensus, whose Apply is read without other entries under
-- way), gorilla/websocket (WebSocket), net/http with the reading of a URL, and sort.Slice where
-- its test is no order.
--
-- Limits. Server takes one request after another; requests at once are modelled where
-- App/Roles/Race and Cfg/Push/Queue say so. strings.EqualFold folds the letters of ASCII only, and
-- strings.TrimSpace drops the spaces of ASCII only. The expiry of a key is an argument of the store
-- and not a passing of time.
--
-- Not modelled: the set-up of raft and of badger (Open, newBadgerStore, the collection of garbage),
-- the upgrade of a connection to a websocket, the set-up of iris, the tokens of sessions, the
-- adapter of loggers and the configuration file. They configure libraries and keep no state of
-- their own.
pub mod Base
pub mod Text
pub mod Dict
pub mod Json
pub mod Commons
pub mod Store
pub mod Http
pub mod User
pub mod App
pub mod Cfg
pub mod Raft
pub mod Inner
pub mod Conn
pub mod Api
pub mod Server
pub mod Samples
pub mod Tests
