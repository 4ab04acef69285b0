-- ===== src/Lib.antt =====
-- A model of rabeld, a daemon for the Babel distance-vector routing protocol, with what makes its
-- parts correct.
--
-- The daemon keeps a table of sources (source.c), a list of neighbours (neighbour.c), a table of
-- routes (route.c), redistributed routes (xroute.c) and a list of requests and updates to be sent
-- again (resend.c). Messages from the network (message.c) change these tables, and timers of the
-- main loop expire their entries; changes are announced to the neighbours and installed in the
-- kernel.
--
-- Files of the model, and the code that they are about:
--   Prelude        shared names, lists, integers, three-way comparisons, memcmp, tables of words
--   Util/Seqno     util.h: seqno_compare, seqno_minus, seqno_plus
--   Util/Timeval   util.c, util.h: timeval_*
--   Util/Text      util.c: parse_thousands, format_thousands, parse_net, parse_address, parse_eui64
--   Util/Prefix    util.c, util.h: v4mapped, in_prefix, normalize_prefix, prefix_cmp, martian_prefix
--   Slots          the bisection and the insertion that source.c and route.c share
--   Source         source.c, with Source/Order, Source/Table and Source/Expiry for its laws
--   Interface      interface.h: the fields of struct interface that other parts read
--   Neighbour      neighbour.c: the list; Neighbour/Hello update_neighbour; Neighbour/Cost the costs;
--                  Neighbour/Check check_neighbours
--   Route          route.c, route.h: struct babel_route; Route/Feasible update_feasible; Route/Metric the
--                  metrics and their smoothing; Route/Table the table, its search and installation;
--                  Route/Select find_best_route and route_interferes; Route/Announce what is sent;
--                  Route/Consider consider_route, with its order in Route/Consider/Order;
--                  Route/Change route_changed and route_lost; Route/Update change_route_metric,
--                  update_route_metric and flush_route; Route/Receive update_route; Route/Kernel
--                  disambiguation.c: the zones of conflicting routes, and the calls to the kernel
--   Xroute         xroute.c: the array of redistributed routes; Xroute/Map, Xroute/Flush and Xroute/Add
--                  for what it says of a destination; Xroute/Check check_xroutes: its two loops over the
--                  array, with what it does to the table of routes in Xroute/Check/Routes
--   Config         configuration.c, configuration.h: Config/Lexer the lexer; Config/Matching the filters;
--                  Config/Values the readers of values and the loop over a line; Config/FilterLine
--                  parse_filter; Config/IfConf the configurations of interfaces; Config/Options
--                  parse_option; Config/Line parse_config_line and finalise_config
--   Resend         resend.c, resend.h: the operations; Resend/Find what is found afterwards, Resend/Time
--                  the time at which to send again, Resend/Send how often an entry is sent
--   Message        message.c: Message/Prefix network_prefix; Message/SubTlv the sub-TLVs; Message/Parse
--                  parse_packet, with its loop in Message/Parse/Loop and Message/Parse/Ends;
--                  Message/Send really_send_update, ensure_space, start_message and flushbuf;
--                  Message/Send/Room and Message/Send/Bound what an update takes where nothing is
--                  flushed in between, Message/Send/Steps and Message/Send/Roomy why 78 bytes are
--                  enough;
--                  Message/Send/RoundTrip what is read of the bytes that were written;
--                  Message/Updates the order in which buffered updates are sent;
--                  Message/Request handle_request, which uses Resend, Route and Xroute
--   Tests          runs at fixed inputs, and each theorem at an input that meets its hypotheses
--
-- Conventions. A C function that changes a structure returns the new one; calls of other parts are
-- returned as a list of events in the order of the calls. Numbers are natural numbers with the
-- wrap-around of the C type written out where the code can reach it; an int that may be negative is
-- an integer of Prelude/Int or, where only its sign matters, an option. The results -1, 0 and 1 of a
-- comparison are lt, eq and gt. `none` stands for NULL, for a failed assertion, or for undefined
-- behaviour, as the comment at each function says. Times are not negative. What calloc and realloc
-- return is an argument.
--
-- The bisection runs on fuel, one unit for each slot of the table: the range shrinks in each round,
-- so the fuel is enough, and the theorems about the search hold for the result as computed. The loops
-- that smooth a metric run on the seconds that have passed, of which each round takes one or more, and
-- the loops over messages and sub-TLVs on the bytes that are left, of which each round takes one or
-- more. The loop over a line of the configuration runs on the length of the text: each round takes a
-- word. The loops of check_xroutes run on the room that may still be added, and on the elements of the
-- array that are still to be looked at. Memory past the end of a packet reads as 0.
--
-- Not modelled: the token bucket and the timestamps of the messages that are sent, the round-trip time
-- computed from those that are received, the buffer for one neighbour (message.c), sockets, netlink
-- and other input and output (net.c, kernel_*.c, nl80211_listener), printing and logging, the
-- reading of a configuration file as a whole, the loops that call update_route_metric and flush_route for
-- many routes, and the files of the repository that no line above names. What random returns is an
-- argument, as are what the C library's strtol, inet_pton and sscanf return and whether a call of the
-- kernel succeeds. A pointer is taken to have 8 bytes.
pub mod Prelude
pub mod Util
pub mod Slots
pub mod Source
pub mod Interface
pub mod Neighbour
pub mod Xroute
pub mod Route
pub mod Config
pub mod Message
pub mod Resend
pub mod Tests
