-- ===== src/Lib.antt =====
-- A model of the event-driven network code in c-cpp/onethread, of the IRC client library in
-- c-cpp/circ, and of the tools and small servers beside them, with theorems about it.
--
-- The program. sockbuf.c keeps a table of buffered sockets ("sockbufs") and, in step with it,
-- the array that it gives to poll(2). Whatever happens on a descriptor is passed up a chain of
-- filters to the handler of the sockbuf's owner; what is written passes down the chain to the
-- descriptor or to the output buffer. socket.c holds the system calls, memutil.c growing texts,
-- telnet.c a filter that turns line ends and colour codes into what a telnet client wants, and
-- answers the commands that it finds in what is read. circ.c keeps IRC sessions on top of the
-- network library cnet and takes lines apart. The other programs stand alone: a poll loop over a
-- fixed array (onethread.c, which listens by network.c), an epoll server (pm.c), a datagram
-- forwarder (udpfwd.c), a tree of commands (larne-tree_example.cc), a command line (readline.c),
-- an address under a mask (cidr.c), and the prefixes that cover a range of addresses
-- (bysin_cidr.c).
--
-- The files.
-- - Common: names of the libraries passed on; Boolean tests, C ints, arrays as lists.
-- - Sockbuf.State: the structs and the file-scope variables of sockbuf.h and sockbuf.c.
--   Sockbuf.Run: commands on that state; a call through NULL or an index outside an array is
--   `fault`. Sockbuf.Env: system calls, filters and handlers, which are parameters.
-- - Sockbuf.Table: sockbuf_isvalid, _new, _set_sock, _close, _read, _noread, the listeners; its
--   children have the invariant of the poll set. Sockbuf.Access: queries and setters.
--   Sockbuf.Filters: attaching, detaching and the search for the filter that takes an event.
--   Sockbuf.Events: sockbuf_on_..., sockbuf_got_eof and sockbuf_real_write. Sockbuf.Io:
--   sockbuf_got_... and sockbuf_write; Sockbuf.Io.Accept: a connection that comes in.
--   Sockbuf.Lifecycle: sockbuf_delete and sockbuf_shutdown. Sockbuf.Loop: sockbuf_update_all.
--   Sockbuf.Stats: the statistics. Sockbuf.Valid: runs on a live index. Sockbuf.Sequence: calls
--   in sequence.
-- - Socket: names, accepting and closing in c-cpp/onethread/socket.c; Socket.Create: making
--   sockets, with the calls of the system written down. Memutil: c-cpp/onethread/memutil.c.
-- - Socket.Dots: the conversions of addresses in c-cpp/onethread/socket.c.
-- - Telnet: c-cpp/onethread/telnet.c; Telnet.Write describes the text byte by byte. Telnet.Read:
--   telnet_filter_read and telnet_filter_delete, on the memory of the chunk.
-- - Network: c-cpp/onethread/network.c and c-cpp/network.c. Onethread:
--   c-cpp/onethread/onethread.c.
-- - Multiserv: c-cpp/onethread/multiserv.c, three services on top of the sockbufs. Unbuf:
--   c-cpp/onethread/unbuf.c, one with the telnet filter.
-- - Cidr: other/bysin_cidr.c. Netmask: c-cpp/cidr.c. CmdTree: other/larne-tree_example.cc.
--   Epoll: other/pm.c. Udpfwd: other/udpfwd.c, whose recvfrom takes 16384 bytes of a datagram.
--   Readline: c-cpp/readline.c.
-- - Circ.Text, Circ.Parse, Circ.Session: c-cpp/circ/circ.c.
-- - Tests: a small world, on which the results below are applied.
--
-- State and operations. A function of sockbuf.c is a command of the same name, from a state to a
-- value and a state; its output parameters are part of the value. `wire` records what write(2)
-- took, `closed` what was closed, and `table` how often the table of sockbufs was reallocated: a
-- pointer into it that is kept across a callback is good only while that number stays the same,
-- which matters in sockbuf_delete. circ.c has such a number too, for the pointer that
-- circ_connect hands on; each realloc is taken to move the table. The answer of a system call
-- depends on a clock that counts calls. A flag word is the record of its bits. Callbacks are
-- arbitrary commands, so that what a theorem needs of them is a condition of it. The loops of
-- the other programs run over lists of what the system answers, one item for a round; a client
-- of pm.c is the index of its cell, and a std::map the list of its entries in the order of their
-- keys.
--
-- Bounds and fuel. Byte counters wrap at 2 ^ 64; snapshot counters and lengths are not bounded.
-- The loop of sockbuf_update_all has fuel, since handlers may add entries; one round more than
-- there are entries is enough while the poll set stays as it is. The loop of telnet_filter_write
-- needs one round for each byte and one more; that of telnet_filter_read one more than there are
-- commands, and the echo of the text has fuel of its own, as telnet_filter_write needs it. The
-- loop of egg_mvsprintf has fuel because nothing is known of what vsnprintf does from its second
-- call on, with a va_list that is used up; a text that fits needs one round. The rounds of
-- sockbuf_delete over the filters are as many as it has filters, and one more. cidr recurses
-- once for each bit, and 33 levels are enough for addresses below 2 ^ 32 (an unsigned long is
-- taken to have 64 bits); readline asks five times at most for the names of a table of four.
-- Memory is taken to be granted.
--
-- Not modelled: c-cpp/onethread/client.c, which sleeps and sends; other/xres.c, which asks the X
-- server for its resolution; snippets that try out one call, and glue to databases, plugins and
-- Tcl. The library cnet is a parameter of Circ.Session.
pub mod Common
pub mod Sockbuf
pub mod Socket
pub mod Onethread
pub mod Cidr
pub mod CmdTree
pub mod Epoll
pub mod Readline
pub mod Memutil
pub mod Network
pub mod Multiserv
pub mod Netmask
pub mod Unbuf
pub mod Telnet
pub mod Udpfwd
pub mod Circ
pub mod Tests
