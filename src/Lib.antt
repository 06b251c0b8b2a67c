-- ===== src/Lib.antt =====
-- Verification of marble.js, a library of functional reactive servers in TypeScript.
--
-- A marble.js server is built of effects, functions on streams. packages/core has the context of
-- dependencies, the events and the operators on them; packages/http routes requests to effects and
-- writes their responses; packages/messaging carries events over transports, with a listener on one
-- side and a client on the other; packages/websockets does so over sockets, which it watches;
-- packages/middleware-cors answers cross-origin requests, packages/middleware-body and
-- packages/middleware-multipart parse the bodies of requests, and packages/middleware-logger logs
-- responses. The files follow these parts.
--
-- Base: what the others share. A JavaScript string is the list of its UTF-16 code units
--   (Base/Strings), an object or a Map an association list in insertion order (Base/Objects), an
--   array a List (Base/Lists). An `undefined` field is `none`.
-- Http: packages/http.
--   Http/Path: factorizeRegExpWithParams of router/http.router.params.factory.ts. The package
--     path-to-regexp is the parameter PathToRegexp.
--   Http/Routing/Model and Http/Routing/Factory: router/http.router.interface.ts and
--     http.router.factory.ts; `add_route` is one round of the loop of factorizeRouting, and
--     `factorize_from` the loop on the routing built so far. Precedence, Declared, Provenance,
--     Defaults and Groups prove what the routing table has.
--   Http/Builder: router/http.router.ixbuilder.ts, with the phases of the builder as the indices of
--     its steps.
--   Http/Pipeline: the stream of a bootstrapped route, of router/http.router.resolver.ts,
--     http.router.helpers.ts and http.router.combiner.ts, on one request after the other.
--   Http/Storage: server/internal-dependencies/httpRequestMetadataStorage.reader.ts.
--   Http/Matcher: matchRoute of router/http.router.matcher.ts, with decodeURIComponent given.
--   Http/Resolver: resolve of router/http.router.resolver.ts; its calls of `next` on the subjects
--     are its result. Http/Pipeline has the streams of the routes.
--   Http/Failures: error/http.error.effect.ts and the streams of router/http.router.resolver.ts that
--     send the responses and the errors.
--   Http/Status: the enumerations HttpStatus and ContentType.
--   Http/HeaderValues: +internal/header.util.ts and contentType.util.ts.
--   Http/Response: response/http.responseHeaders.factory.ts, http.responseBody.factory.ts and
--     http.responseHandler.ts. The conversions of Node.js, qs, mime and file-type are the parameter
--     Conversions.
-- Core: packages/core.
--   Core/Context: context/context.ts. A reader is a tree of what it asks for and what it gives at
--     the end, and a value is ordinary, nullish or has a field `eval`. `context_lookup` has a bound
--     on the depth of its calls; with readers that ask in no circle, a bound above the rank of the
--     token and the number of parents is enough.
--   Core/Context/Construct: context/context.helper.ts.
--   Core/Errors: +internal/utils/error.util.ts and the guards of error/error.model.ts. An error value
--     is its own properties and the name that it inherits.
--   Core/Effects: effects/effects.combiner.ts.
--   Core/Env: +internal/utils/env.util.ts. Core/Logger: logger/logger.interface.ts.
--   Core/Events: event/event.factory.ts, operators/matchEvent and operators/act. A stream is the list
--     of what it emits and the error that ends it, so inner streams are synchronous.
-- Messaging: packages/messaging.
--   Messaging/Timers: eventStore/eventTimerStore.ts, ack/ack.ts and the middleware rejectUnhandled$.
--     A step relation has events that arrive, acknowledgements and timers that fire. The client is
--     called when a task of ack.ts is built, its timer is unregistered when the task runs.
--   Messaging/Transport: reply/reply.ts, transport/transport.transformer.ts and the strategies
--     redis.strategy.helper.ts (its codec) and local.strategy.ts.
--   Messaging/Middlewares: middlewares/messaging.eventInput.middleware.ts and
--     messaging.eventOutput.middleware.ts.
--   Messaging/Listener: server/messaging.server.listener.ts. `receive` is what the listener does with
--     one message, from the decoding to what is sent; an error closes its stream in the state, and
--     `process_error` opens it again.
--   Messaging/Client: client/messaging.client.ts. `call_local` is a call of `send` together with the
--     listener and the local strategy.
--   Messaging/EventLogger: middlewares/messaging.eventLogger.middleware.ts.
--   Messaging/Redis: transport/strategies/redis.strategy.ts, on the state of its three clients; a
--     remote call is two steps, `redis_send` and `redis_published`, between which messages arrive.
--   Messaging/Amqp: the connection of transport/strategies/amqp.strategy.ts, as the calls that it
--     makes of its channel.
-- Sockets: packages/websockets.
--   Sockets/Heartbeat: server/websocket.server.helper.ts; the time that passes is a step.
--   Sockets/Listener: server/websocket.server.listener.ts and error/websocket.error.effect.ts.
--   Sockets/Responses: server/websocket.server.response.ts and operators/broadcast.
--   Sockets/Upgrade: operators/mapToServer; when handleUpgrade of the package ws throws is a
--     parameter.
-- Parsers/Body: packages/middleware-body. Parsers/Multipart: packages/middleware-multipart, over the
--   events of busboy.
-- RequestLogger: packages/middleware-logger, at the end of a response.
-- Io: ioTypeToJsonSchema of packages/middleware-io/src/io.json-schema.ts, on io-ts types as data.
--   Io/Validation: io.middleware.ts, io.reporter.ts and io.request.middleware.ts beside it.
-- Cors: packages/middleware-cors, on one request. Regular expressions are a parameter.
--
-- Not modelled: the HTTP and WebSocket servers and the clients of AMQP and Redis, which are calls of
-- other packages; the output of logs and the tables of server events; the testing utilities; the
-- metadata of requests and the validation of events in middleware-io; asynchronous streams, in which
-- inner streams interleave, and their timing, but for the heartbeat.
pub mod Base
pub mod Core
pub mod Cors
pub mod Http
pub mod Io
pub mod Messaging
pub mod Parsers
pub mod RequestLogger
pub mod Sockets
