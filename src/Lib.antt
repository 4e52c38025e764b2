-- ===== src/Lib.antt =====
-- The client libraries for LivePerson's messaging service (UMS): a client resolves the domains of
-- an account, logs a user in, connects a transport and exchanges messages with the service.
--
-- Base: tests on numbers and texts, lists over the native numbers, thrown values and tasks.
--
-- Platform: what the packages use of JavaScript and Node. Values: JSON values as
--   packages/util-types/src/json.ts has them, property access, assignment and conversion to text.
--   Emitter: the EventEmitter behind packages/util-types/src/event_emitter.ts. Timers: setTimeout
--   and clearTimeout. Interfaces: interfaces of TypeScript as data, with the JSON values that have
--   them; what they refer to is followed a given number of times, and Closed says how many are
--   enough.
--
-- Request: packages/util-request/src/request.ts. do_request is doRequest without a second try,
--   second_request the second try; request_options are the options passed to got.
--
-- Csds: the domains of an account. Config: packages/csds-config/src/config.ts. Resolver:
--   packages/csds-resolver/src/resolver.ts. Simple: packages/csds-simple-resolver/src/resolver.ts,
--   whose resolve is simple_resolve. Caching: packages/csds-caching-resolver/src/resolver.ts.
--
-- Client: the chain of classes CsdsClient, LeClient, TransportClient (packages/csds-client,
--   packages/le-client, packages/transport-client, each src/client.ts). State has the fields of the
--   object with its timers and its world; each of the three modules has the methods of one class,
--   csds_on_start, le_on_start and transport_on_start being onStart of the three. Overridden
--   methods are Hooks; start, stop and refresh are transit. Services are the interfaces of
--   packages/le-session-provider/src/provider.ts and packages/transport/src/transport.ts.
--
-- Ums: packages/ums-client/src/client.ts. Requests has its state and operations: promises are
--   numbered, and a listener of umsResponseHandler is the number of the promise that it resolves.
--   Histories are sequences of events: requests, failures to send, timeouts, messages, stops.
--   Client: onStart and onStop. Object: the object with its requests, and Refinement its histories.
--   Notifications: onNotification. Generated: the names of the events, and the wrappers of the
--   notification handlers, in packages/ums-generated/generated/index.ts.
--   Declarations: the same file from ITyped on, as a list of declarations. Interfaces: the
--   interfaces of its messages; three steps are enough for the references between them (Schema),
--   and Exchange sends values of these types.
--   Config: packages/ums-client/src/config.ts (Client/Config has the defaults of the other
--   clients). Connection: packages/ums-connection/src/connection.ts, with Login for an agent who has
--   logged in.
--
-- WsTransport: packages/transport-ws/src. Config is config.ts; State, Handlers, Connection and
--   Sending are transport.ts. connect is connect_begin, the wait for disconnect, and connect_open;
--   socket_event is what the hooks on a socket do; transmit is the worker of the queue up to its
--   wait for the socket, and transmit_waited what follows the wait. Waiting has the wait as a whole;
--   poll_socket and poll_fires are its polls with their timers. Delivery, Fifo and Losses follow the
--   messages of a transport over histories of its worker, its socket and its disconnects, Moments are
--   histories of all its calls and events, Clocks, Polls and Silence follow their timers, Listening
--   and Callbacks the users' callbacks, Pongs the heart beat that waits for a pong; Emission has what
--   an event of the transport leaves as it is.
--
-- Generate: packages/ums-generated/build/generate_interfaces.ts, which writes the types in
--   generated/index.ts. Structures has the declarations that it adds to a source file, Common
--   what it declares for each schema (common_data is commonData), Wrappers the generators for the
--   kinds of schemas, Typings generateGenericTypings, Main the script with its files. Lookup,
--   Extends, Declares, Handlers, Complete, Whole, Written, Loaded, Runs, Checked and Agreement
--   have the proofs: Whole those of the generators one after the other, Written those of the file
--   that is written, Agreement those that compare the declarations with Ums/Declarations.
--
-- Ids: packages/ums-id-generator/src/generator.ts; generate_id is generate without an argument.
--
-- Sessions: packages/le-agent-session-provider and packages/le-consumer-session-provider;
--   Cookies follows the cookies of an agent's session from the login to the requests behind it,
--   Interfaces has the interfaces of that session, and Typed that a login gives one.
--
-- Logger: packages/logger/src/logger.ts and packages/logger-console/src/logger.ts.
--
-- Tests: runs at concrete inputs, with small libraries and services made of functions and lists.
--
-- The parts meet in ClientConfig: a client takes a resolver, a session provider and a transport as
-- records of tasks over a world. The caching resolver is a simple resolver whose resolve is
-- memoised; the resolvers, the session providers and LeClient send their requests by Request; the
-- UMS client hears messages by a callback on its transport.
--
-- Libraries are parameters: got (send), chalk (paint), mem (Memoizer), javascript-state-machine
-- (StateMachine), async's queue (AsyncQueue), ts-simple-ast (SourceFiles), the libraries for schemas and
-- files (Tools), jsonpath (query), pascal-case (pascal), cookie, JSON.stringify and JSON.parse.
-- Memoizer, StateMachine, AsyncQueue and SourceFiles are records of operations with the laws that their
-- documentation gives; the tests have an instance of each. The sockets of ws are numbers with a ready state and events.
--
-- An asynchronous method is a function from a state to a result and a state: its awaits are answered
-- in turn, and what other code does meanwhile to the same object is left out. StateMachine
-- documents that transitions do not overlap; in Ums each event is handled whole, as Node does, with
-- what the settling of a promise sets off; connect and transmit are split at their waits, so that
-- events can stand between the parts. Delays and counts are natural numbers, and other numbers are
-- known by their text; the names of Object.prototype count as ordinary names of properties, and
-- properties stand in the order of insertion. wait_for_socket counts the
-- retries down below zero, as the code does, and so ends after maxRetries + 1 polls. The references between interfaces are followed
-- three times for the messages, which is enough by Ums.Interfaces.Schema, and six times for an
-- agent's session, its longest chain.
--
-- A write of a file that fails is taken to leave what was there; of schemas that fail to load, the
-- first of the list is reported.
--
-- Not modelled: the calls of the loggers, mocks and examples, and the events newListener and
-- removeListener that an emitter of Node emits by itself, so that the id of a request is taken to be
-- another name.
pub mod Base
pub mod Platform
pub mod Request
pub mod Csds
pub mod Client
pub mod Ums
pub mod WsTransport
pub mod Generate
pub mod Ids
pub mod Sessions
pub mod Logger
mod Tests
