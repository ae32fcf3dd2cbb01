-- ===== src/Lib.antt =====
-- The C core of an online game server that is built on the skynet framework: services with message
-- queues, a scheduler of worker threads, the table of service handles and names, and the gate that
-- cuts the byte streams of clients into messages for the services.
--
-- The parts, and the files that model them
--   Common            tests on numbers, lists, memory as functions, bit masks and remainders, and C code that
--                     may fault as a value of Option: none is a failed assertion, a null or wild access, or
--                     the end of the fuel.
--   MessageQueue      skynet-src/skynet_mq.c: one message queue, a ring that doubles. MessageQueue.put
--                     is skynet_mq_push without the global list, pop is skynet_mq_pop.
--   GlobalQueue       skynet-src/skynet_mq.c: all queues on a heap, and the linked list of those that wait
--                     for a worker. mq_push, mq_pop, mark_release and mq_release are the functions of the
--                     source; the C pointers are addresses of the heap.
--   Scheduler         The threads of skynet-src/skynet_server.c and skynet-src/skynet_start.c as a step
--                     relation: a service is created, a worker takes a queue from the list, pops, pushes it
--                     back or releases it, and anyone sends. One step is one call under the spin lock.
--   DataBuffer        service-src/databuffer.h: the bytes of one connection as a list of blocks, and the
--                     pool of list nodes.
--   Gate              service-src/service_gate.c: dispatch_message, _forward and the data events of one
--                     connection, on top of DataBuffer.
--   HashId            service-src/hashid.h: the table from socket ids to slots, with its chains of nodes.
--   GateService       service-src/service_gate.c: the connections of the gate on top of HashId, DataBuffer
--                     and Gate. GateService holds the socket events and client messages,
--                     GateService/Words and GateService/Control the text commands with the C string
--                     functions that they use, GateService/Start the start and the end of the service.
--                     What the gate calls is listed as an effect.
--   Context           skynet-src/skynet_server.c: the numbers of sessions and skynet_send, with the tests of
--                     skynet-src/skynet_harbor.c for other nodes.
--   NetPack           lualib-src/lua-netpack.c: the packets of the Lua gate, with the chains of uncomplete
--                     packets and the ring of finished ones; Session is its caller's loop in
--                     lualib/snax/gateserver.lua.
--   NameTable         skynet-src/skynet_handle.c: the sorted array of names, with its binary search.
--   HandleStorage     skynet-src/skynet_handle.c: the slots of services, and the lines of
--                     skynet_context_new in skynet-src/skynet_server.c that register a service. Retiring a
--                     handle uses NameTable.
--   Timer             skynet-src/skynet_timer.c: the wheel of events. timer_add, add_node, move_list,
--                     timer_shift, timer_execute and timer_update are the functions of the source, and
--                     run_ticks is the loop of skynet_updatetime.
--   Base64, Hex       lualib-src/lua-crypt.c: the functions lb64encode, lb64decode, ltohex and lfromhex
--                     on the bytes of their strings.
--
-- Messages travel from the gate to the queue of a service, which the scheduler hands to a worker; the
-- worker finds the service by its handle.
--
-- Bounds and fuel
--   mq_release runs _drop_queue with one round for each message and one more. dispatch_message has one
--   round for each byte in the buffer, and two more. The search for a name has one round for each name
--   and one more, as every round makes the range smaller. skynet_handle_register has two rounds, since
--   after the slots were doubled one is free, and skynet_handle_retireall two passes, as the second retires
--   nothing. hashid_lookup and hashid_remove follow a chain for one round more than the
--   table has slots, and hashid_insert tries each slot once; the size that hashid_init looks for is
--   found within 28 doublings. The packet library has one round for each byte that comes in and one
--   for each place of the ring of finished packets. timer_shift has four rounds, one for each level,
--   as the source's mask is an int; at the tick 0 it does not enter the loop. That the fuel is enough
--   is part of the theorems below.
--   Handles and the handle index wrap at 2^32, and the int sizes that the source computes stay below
--   2^31 by the bounds that the theorems name. The size of a buffer of the gate is an int that data may
--   overflow: databuffer_push faults there, and the theorems on the gate name the bound or the fault.
--   memcmp in the gate's text commands reads on behind literals that are shorter than the first word; the
--   bytes that stand there are a parameter.
--
-- What is not modelled
--   The locks are taken as given: a call under a lock is one step. The weights by which a worker takes
--   several messages at a time, the reference counts of contexts, the table of commands and the names
--   in skynet-src/skynet_server.c, the monitor, the clock, events that other threads add in the middle
--   of a tick, the socket server, the harbor service, the hashes and the Lua bindings have no model
--   yet. Memory allocation does not fail, as in the source, which does not test it. The libraries
--   under 3rd and the Lua code are not part of it.
pub mod Base64
pub mod Common
pub mod Context
pub mod DataBuffer
pub mod Gate
pub mod GateService
pub mod GlobalQueue
pub mod HandleStorage
pub mod HashId
pub mod Hex
pub mod MessageQueue
pub mod NameTable
pub mod NetPack
pub mod Scheduler
pub mod Timer
