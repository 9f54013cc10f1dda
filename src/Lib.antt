-- ===== src/Lib.antt =====
-- Verification of the multicast DNS service discovery in SOURCE/src/modules/python/zeroconf: the
-- packets, the records and their cache, the registered services and the answers to queries, the
-- browser, and the requests for a service. All
-- source files named here stand in SOURCE/src/modules/python/zeroconf/src/zeroconf.
--
-- The parts and how they interact. A datagram reaches the listener (_listener.py, `AsyncListener`),
-- which parses it (_protocol/incoming.py), passes a response to the record manager
-- (_handlers/record_manager.py), which updates the record cache (_cache.py), and keeps or passes on
-- a query to the query handler (_handlers/query_handler.py). The handler looks the services up in
-- the registry (_services/registry.py), makes their records (_services/info.py), leaves out what the
-- asker knows, and either answers at once or hands the answers to a multicast queue
-- (_handlers/multicast_outgoing_queue.py); _handlers/answers.py makes the outgoing message, and
-- _protocol/outgoing.py splits it into packets. The record manager tells its listeners of the
-- records of a response: a browser (_services/browser.py) announces services to the application and
-- plans the queries that refresh them, and a `ServiceInfo` (_services/info.py) that is being
-- requested learns its addresses and its text. _core.py registers a service under a name that nobody
-- has and says so on the network.
--
-- The files, with the source that each models:
--   Const, Const/Types           const.py
--   Dns, Dns/*                   _dns.py: `Record` is `DNSRecord` with the fields of its subclasses
--                                as `RData`; `record_eq` is `__eq__`, `hash_input` what is hashed
--   Cache, Cache/*               _cache.py: `DnsCache` is `DNSCache`, its methods by their names
--   History, History/*           _history.py
--   Incoming, Incoming/*         _protocol/incoming.py: `Reader` is a method, which changes the
--                                object also where it raises
--   Outgoing, Outgoing/*         _protocol/outgoing.py and the `write` methods of _dns.py
--   Services, Registry           _services/info.py (the records of a service), _services/registry.py
--   Properties, Properties/*     _services/info.py: the properties and their text
--   IpAddress                    _utils/ipaddress.py
--   Info, Info/*                 _services/info.py: what a service learns, and its requests
--   Grouping, Grouping/*         _services/browser.py: the questions of a query and their messages
--   Scheduler, Scheduler/*       _services/browser.py: `QueryScheduler`; a scheduled query has a
--                                number, by which the heap and the table share it
--   Browser, Browser/*           _services/browser.py: `_ServiceBrowserBase`, `ServiceBrowser`
--   Core, Core/*                 _core.py: broadcasts, registration, `async_check_service`
--   Answers, Queue, Queue/*      _handlers/answers.py, _handlers/multicast_outgoing_queue.py
--   Query, Query/*               _handlers/query_handler.py
--   Manager, Manager/*           _handlers/record_manager.py and the clean-up of _engine.py
--   Listener, Listener/*         _listener.py
--   ServiceName                  _utils/name.py
--   Prelude, Prelude/*           lists, text, UTF-8, integers, and `Dict`, a Python dict as the list of its
--                                items
--   Tests, Tests/*               runs at concrete inputs
--
-- The modelling. Text is the list of its code points and bytes are numbers; `lower` folds the ASCII
-- letters. Times are whole milliseconds and ttls whole seconds, as natural numbers, and every clock
-- and random delay is an argument. A set is the list of its members. The heap of the cache is the
-- list in the order in which entries are popped; an entry holds the record as it was pushed. A
-- KeyError of the cache is `none`; other exceptions are constructors of an error type for each part.
-- A timer is a delay in the result, and what a listener is told is an event. The heap of the
-- scheduler is the list in the order in which queries are popped; queries of one time stand in the
-- order in which they were pushed. A coroutine is the sequence of its
-- rounds, each with the time and the state that it finds when it is woken. The address of a host is
-- its bytes with a scope; whether it is link-local is read as in Python before 3.13.
--
-- The fuel. The decoder of names is given the length of the packet plus two levels of pointers, as
-- each target is followed once, and the length plus one labels for each level; the loop over a
-- bitmap is given its end plus one rounds, as a round moves on by two bytes; the loop over packets
-- is given one round more than there are items. The search for a name is given a round for its first
-- name, one for each cached record of the type and one more, as no two of its names are the same. The
-- loop over the text of some properties is given its length, and each round takes a byte.
--
-- Not modelled: sockets, threads, the event loop, the start and the close of an instance and the
-- set-up of the core (_core.py, _engine.py, _transport.py, asyncio.py, _utils); the registration of
-- handlers and the list of service types (_services/types.py); the constructor of `ServiceInfo` and
-- the records that it keeps; logging; the interpreter's limit on recursion, on which a long chain of
-- pointers would run; the copy of Flask beside this package, which is a library; the build files,
-- scripts and C programs of the firmware.
pub mod Answers
pub mod Browser
pub mod Cache
pub mod Const
pub mod Core
pub mod Dns
pub mod Grouping
pub mod History
pub mod Incoming
pub mod Info
pub mod IpAddress
pub mod Listener
pub mod Manager
pub mod Outgoing
pub mod Prelude
pub mod Properties
pub mod Query
pub mod Queue
pub mod Registry
pub mod Scheduler
pub mod ServiceName
pub mod Services
pub mod Tests
