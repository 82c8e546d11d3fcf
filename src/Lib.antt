-- ===== src/Lib.antt =====
-- fabric-sdk-go-gm: the client of a Hyperledger Fabric network, and of it the event dispatcher, the
-- errors with their retries, the choice of peers, the event client, and the handlers of queries and
-- transactions.
--
-- A client registers for the events of a channel at the dispatcher, a goroutine that takes requests
-- and blocks from one Go channel and handles them one after the other. A block is published to the
-- registrations for blocks, filtered blocks, chaincode events and transaction statuses, each over
-- the Go channel of its registration. When the client moves to another peer a snapshot carries the
-- registrations to a new dispatcher. Calls that fail are retried by an invoker that reads the status
-- behind an error. Requests go to peers that a balancer has ordered. The event client holds the
-- dispatcher, connects it to an event server, and closes it. A query or a transaction goes through a
-- chain of handlers.
--
-- Common: tests, lists, texts, integers and maps, and Common/Outcome for what a piece of code does:
--   it returns, panics, or waits for ever. A text is the list of its bytes.
-- Fab: the events of pkg/common/providers/fab. Fab/Channels is the store of Go channels: for each
--   whether it is closed, the messages that it has taken, and how often a send was tried; the
--   argument `Ready` says for each try whether the consumer makes room in time.
-- Service: pkg/fab/events/service/dispatcher. The record Dispatcher has the fields of the struct. One
--   function stands for each function of dispatcher.go, by its name; a response channel becomes the
--   reply of the handler. Registrations is registrations.go, Start is Start with the options of
--   opts.go, Publish the publishing functions, Filter and FilterBlock the filtered form of a block,
--   Unregister the removal of a registration, Handlers the table of handlers and the loop. Of the
--   other modules, Live is about the channels of the registrations and about panics, Order about the
--   order of the messages, Delivery about what they are, Transfer about snapshots, Keys about the keys
--   of registrations.
-- Errors: pkg/common/errors. Multi is multi.go, Status the status behind an error, Retry the retry
--   handler and the loop of the invoker, Backoff its waiting time.
-- Selection: pkg/util/concurrent/rollingcounter, the round-robin balancer of
--   pkg/client/common/selection/balancer, and the round-robin policy of
--   pkg/client/common/selection/dynamicselection/pgresolver, in Balancer. Groups is the rest of
--   pgresolver: the four types of groups, with Equality and Combination for groupsimpl.go, Policy and
--   Resolver for pgresolverimpl.go. The retriever of peers, the same in all groups of a policy, is an
--   argument. Meaning says which sets of MSPs a hierarchy of groups accepts; Conjunction, Collapsing,
--   Pruning, Reduction and Threshold are about the steps on hierarchies, Satisfaction and Rejection
--   about the compilation of a policy, Principals about its signers, Serving, Resolution, Coverage and
--   Choice about the peers.
--   Sorter is sorter/blockheightsorter, with Heights for the block heights; Sorted is about its order.
-- EventClient: pkg/fab/events/client. Dispatcher is the dispatcher of dispatcher/dispatcher.go, which
--   adds a connection to the service dispatcher; its module Connections is about the open connections.
--   Client is client.go, with the modules Attempts and Retrying for the connect, and Closing and Idle
--   for the end, and Monitor for the goroutine that monitors the connection, with Racing about a close
--   at the same time. A request of the client to its dispatcher is handled at once, and a reconnect is
--   one step, without a round of the monitor between its parts. PeerResolver is
--   peerresolver and lbp, with Selection/Heights for the block heights; Choosing is about the load
--   balancing policies, Filtering, Selecting and Preferring about the choice of a peer, Leaving about
--   ShouldDisconnect.
-- Channel: pkg/client/channel/invoke, the handlers of txnhandler.go and signature.go. A handler is a
--   function of the request context with the next handler as an argument; the request keeps the
--   endorsements of each transaction that was sent. Agreeing is about what is sent, Querying about
--   what a query returns, Invocation about the calls for which endorsers are selected.
--
-- Block numbers are uint64 that the code only compares. The loops of the dispatchers are recursions
-- on the list of their events. Two loops run on fuel: that of the invoker, for which one unit more
-- than the retries that are left is enough, and that of connectWithRetry, for which the attempts that
-- are left are enough. Go visits a map in any order; here it is the order of insertion. What the code
-- takes from other packages is an argument: the decoding of protocol messages, the compiler of
-- regular expressions, the MSP identifier that a principal holds, the texts and causes of errors,
-- floating-point numbers, random numbers, the discovery service, the peer resolver and the connection
-- provider of a dispatcher, the sort of Go's library, and for the handlers the transactor, the
-- creation of a proposal, the selection service, the check of a signature and the events of
-- transactions.
--
-- Not modelled: logging; the network, crypto and configuration code; the event service in front of a
-- dispatcher; the caches; the selection of additional endorsers for a transaction; the other
-- clients; the copies of Hyperledger Fabric and Fabric CA under internal and third_party.
pub mod Common
pub mod Fab
pub mod Service
pub mod Errors
pub mod Selection
pub mod EventClient
pub mod Channel
