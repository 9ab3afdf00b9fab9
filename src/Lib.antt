-- ===== src/Lib.antt =====
-- A verification library of Polaris GSLB, a DNS load balancer: polaris_health probes the servers of
-- its pools and publishes through memcache which of them are to be served, and polaris_pdns, a
-- remote backend of PowerDNS, answers queries from what was published.
--
-- The parts, and the files that model them:
--   * polaris_common/topology.py: Topology.antt, with Topology/ for what it computes. The parsers of
--     Python's `ipaddress` are a parameter, IpParser.
--   * polaris_health/protocols: Protocols.antt (tcp.py), Protocols/Status.antt and Protocols/Http.antt
--     (http.py), Protocols/Reading.antt (the loop that reads a response). Protocols/Timely.antt,
--     Protocols/Endless.antt, Protocols/Heard.antt and Protocols/Opening.antt are about a socket that is opened, and when the loop ends, and with what;
--     Protocols/RoundTrip.antt is about the Status-Line.
--   * polaris_health/monitors: Monitors.antt, Monitors/Build.antt (the constructors) and
--     Monitors/Run.antt (the `run` methods); Monitors/Ends.antt, Monitors/Failures.antt and
--     Monitors/Verdict.antt are about how a run ends. What `re` matches is a parameter.
--   * polaris_health/state/pool.py: Pool.antt (members, pools and their status), Pool/Config.antt (the
--     constructors and `from_config_dict`), Pool/Dist.antt (`to_dist_dict`). Pool/Served.antt
--     describes what a pool serves without the tables, and Pool/Tables.antt, Pool/Distribution.antt
--     and Pool/Servable.antt compare the two. Pool/Checked.antt and
--     State/Checked.antt hold what the checks of a configuration ensure.
--   * polaris_health/state/globalname.py: GlobalName.antt.
--   * polaris_health/state/__init__.py: State.antt, State/Queue.antt (the priority queue),
--     State/Config.antt and State/Init.antt (the constructor); State/Converged.antt is about
--     `health_converged`.
--   * polaris_health/prober: Prober.antt (probe.py) and Prober/Threads.antt (__init__.py);
--     Prober/Upkeep.antt, Prober/Sound.antt, Prober/Conserved.antt and Prober/Starved.antt are about its
--     threads and queues.
--   * polaris_health/guardian/__init__.py: Guardian.antt (the termination of the child processes) and
--     Guardian/Loop.antt (the control loop); Guardian/Ending.antt, Guardian/Patience.antt,
--     Guardian/Counted.antt and Guardian/Shutdown.antt are about them. Guardian/Start.antt is `start`, with the PID file and the
--     control socket, and Guardian/Whole.antt is about how it ends. Startup.antt is the loading of
--     the configuration, also that of polaris_pdns/__init__.py, and Startup/Loaded.antt is about it.
--   * polaris_health/tracker/__init__.py: Tracker.antt, with Tracker/Retries.antt for histories of
--     probes, Tracker/Responses.antt and Tracker/Pools.antt for what one response changes, Tracker/Schedule.antt,
--     Tracker/Remaining.antt, Tracker/Progress.antt, Tracker/Rounds.antt and Tracker/Reachable.antt for
--     the rounds of the loop and its queue, Tracker/Fit.antt and Tracker/Configured.antt for what the rounds keep of a
--     configuration, and Tracker/Pusher.antt for StatePusher and its use of sharedmem.py.
--   * polaris_common/sharedmem.py: SharedMem.antt, on what the memcache library does. Sharing.antt is
--     about the pusher and the updater together.
--   * polaris_health/util: Util.antt (`instance_to_dict`), with Util/Plain.antt, and Logging.antt
--     (log.py).
--   * polaris_pdns/core/polaris.py: Pdns.antt (data and the monad of the handlers), Pdns/Answers.antt
--     (the handlers), Pdns/Updates.antt (StateUpdater); Pdns/Rotation.antt, Pdns/Queries.antt,
--     Pdns/Refusals.antt, Pdns/Ready.antt, Pdns/Safety.antt, Pdns/Sync.antt and Pdns/Carry.antt
--     hold what is proved of them. Pdns/Turned.antt, Pdns/Alike.antt and Pdns/Follows.antt are about
--     states that differ in the indexes of their tables.
--   * polaris_pdns/core/remotebackend.py: Pdns/Backend.antt (one request), Pdns/Loop.antt (the
--     loop), with Pdns/Unlocated.antt, Pdns/Service.antt, Pdns/Holding.antt and Pdns/Lookups.antt for
--     what is proved of them. What `json` reads is a parameter.
-- Published.antt is the form that both sides share; State/Publish.antt, State/Gets.antt and
-- State/Fresh.antt lead from the health state to the answers, and Site.antt from the configuration of
-- a whole site to them. Config.antt holds the configuration as YAML gives it, and
-- Examples.antt a small site on which everything is tried. Prelude.antt and its children hold the
-- library that the parts share.
--
-- How values are modelled:
--   * Times are in milliseconds, and the floats of the configuration in thousandths.
--   * A dictionary is an association list in insertion order, with Python's lookup and assignment.
--   * An exception is a value of Prelude/Result.antt; a handler of the backend that raises keeps
--     what it wrote before.
--   * `random` is a record of what it draws: a shuffle is some permutation, and random() is below 1,
--     in steps of 2^-53.
--   * The lists `_pool_by_id` and `_member_by_id` of references, and the attribute `_id`, are
--     positions in the order of the pools.
--   * `heapq` is a list that is kept in order.
--   * `str.lower` is ASCII lower case, which is right for DNS names.
--   * The content of a SOA record is its fields, not the formatted text. Log entries are data, without
--     the times in them.
--   * STATE of the backend is `none` while it is the empty dictionary. What memcache returns is an
--     argument of `update_state`. Handlers and updates hold STATE_LOCK, so that each is one step.
--   * In the configuration, addresses and names are text, and dictionaries have no other keys than
--     those that the code reads.
--   * The operating system's socket is a record of what its calls return and how long they take. The
--     bytes of each call are decoded by themselves, as the source does. In the regular expression of
--     the Status-Line, digits are ASCII.
--   * The prober is a process and threads whose steps interleave: an event says which goes next. A
--     clean-up, and the update of the largest number of busy threads, are one step each.
--   * The objects of `instance_to_dict` are trees. How the health state is laid out as such an object
--     is a parameter of a push, Push.objects. What `dictConfig` can import is a parameter.
--   * The guardian's processes are positions in its list. What the operating system makes of a signal,
--     and what happens between two looks at processes, is a parameter; SIGTERM reaches the guardian
--     while it waits in accept. Files are what `yaml.load` makes of a path.
-- The read loop of a response runs on fuel, the number of calls of recv. With one call more than the
-- peer sends data in, the loop ends; the timeout does not end it. Every other loop
-- goes over a list or a count that is there when it starts; the infinite loops are sequences of rounds,
-- or of events.
--
-- Not modelled: the texts of exceptions, the parsing of YAML, and what is written to the log.
pub mod Prelude
pub mod Config
pub mod Protocols
pub mod Monitors
pub mod Topology
pub mod Pool
pub mod GlobalName
pub mod Guardian
pub mod Startup
pub mod Util
pub mod Logging
pub mod SharedMem
pub mod Sharing
pub mod Site
pub mod State
pub mod Prober
pub mod Tracker
pub mod Published
pub mod Pdns
pub mod Examples
