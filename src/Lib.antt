-- ===== src/Lib.antt =====
-- mprtplib: multipath RTP. A sender spreads one RTP stream over several paths, its subflows; a
-- receiver puts the streams together and reports on each subflow, and the sender moves the shares of
-- the paths by these reports.
--
-- Which file models which part:
--   Struct, Bytes: the packed structures of include/mprtp_struct.h on a little-endian machine, as
--     lists of bytes. A read behind the end is `fault`.
--   Packet: rtp_packet and raw_packet (include/mprtp_packet.h, src/mprtp_packet.cpp), and in
--     Packet/Build the bytes of sender::send_data. Pointers into the buffer are offsets.
--   Rtcp: rtcp_sr_packet and rtcp_rr_packet; Rtcp/Build: the writers of src/mprtp_sender.cpp and
--     src/mprtp_source.cpp.
--   Session: src/mprtp_session.cpp. The virtual functions are a record `Handlers`, which the sender
--     and the receiver fill; Session/Poll is session::poll over the interfaces.
--   Stat: source_stats (include/mprtp_stat.h, src/mprtp_stat.cpp).
--   Interface: include/mprtp_interface.h, src/mprtp_interface.cpp and include/mprtp_select.h.
--   Subflow, Constants: include/mprtp_subflow.h, src/mprtp_subflow.cpp and src/mprtp_constants.cpp.
--   Source, Receiver: src/mprtp_source.cpp, include/mprtp_compound_packet.h and src/mprtp_receiver.cpp.
--   Sender: src/mprtp_sender.cpp, with sender::connect in Sender/Connect, the reports and sender::poll
--     in Sender/Cycle, and sender::recalc_subflow_percentage in Sender/Distribution.
--   Programs: examples/client.cpp and examples/server.cpp. Programs/Client is main up to connect,
--     Programs/Client/Threads the two threads, the mutex and the signal handler as a step relation;
--     Programs/Server the loop of the server, with what it prints as values and, in
--     Programs/Server/Reports, the reports that it sends. Programs/Delivery
--     follows a line from the one to the other, and Programs/Network has both at the two ends of a
--     network that loses, repeats and reorders datagrams, with the lines that are printed in
--     Programs/Network/Authentic and the return of each pass of the server in Programs/Network/Returns.
--   Time, Address: include/mprtp_time.h and include/mprtp_address.h.
--   World: what the program asks its surroundings for, and the datagrams that it hands over.
--   Examples: concrete data on which the results are applied.
--
-- How they interact: poll takes datagrams from the interfaces, Session parses them and calls the
-- handlers, these change a Source or a Subflow, and reports leave through Subflow.send. State is
-- passed on explicitly; a pointer to a subflow or a source is its place in the list that owns it.
--
-- Doubles are a type and a record of operations, `Double`: a law of them is a hypothesis where it is
-- needed. The answers of the clock, of rand and of the system's sockets are given beforehand, as
-- functions and lists; all that holds, holds for any such answers. Integers are natural numbers with
-- the wrap of their C++ type written out.
--
-- `fault` stands for undefined behaviour: a read behind a buffer, a null pointer, the front of an
-- empty vector. `stuck` stands for a loop that has run out of fuel. The loop over an MPRTP packet has
-- as many rounds as the packet states bytes, and the loop over a datagram as many as it has bytes:
-- each round goes on by four bytes at least, or a block states the length 0.
-- The constructor of the receiver draws random numbers until one is not 0, on fuel that its caller
-- gives.
--
-- getopt, atoi and inet_addr are arguments of the programs. Between two calls of the mutex, the
-- sender or join a thread takes one step; the steps of the two threads come in any order, and a signal
-- may come on the main thread between any two.
--
-- Not modelled: the functions that print, the order of bytes on a big-endian machine, a payload of
-- 2 ^ 31 - 24 bytes or more in send_data, and in examples/client.cpp a signal on the poll thread or
-- before the threads start, and what the join of the signal handler does inside the last join of main.
pub mod Prelude
pub mod Programs
pub mod Bytes
pub mod Struct
pub mod Address
pub mod Packet
pub mod Double
pub mod Time
pub mod Rtcp
pub mod Stat
pub mod Interface
pub mod Constants
pub mod Subflow
pub mod World
pub mod Source
pub mod Receiver
pub mod Sender
pub mod Session
pub mod Examples
