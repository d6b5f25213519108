-- ===== src/Lib.antt =====
-- Verification library of rillserver.
--
-- rillserver is a game server: Lua services on the skynet framework, with C code for the network
-- and for data structures. This library models C code of the repository, one module per part:
--
-- WebSocket: lualib-src/lua-websocketnetpack.c, the WebSocket side of the gateway. The socket
--   thread delivers byte strings as they come; `lfilter` cuts them into frames, unmasks the
--   payloads, keeps what is incomplete until the rest comes, and queues what is complete for
--   `lpop`. Its parts:
--     Wire        the wire format of RFC 6455, section 5.2: the specification
--     Frame       `read_size`, `ntoh64`, `lpack` and the FRAME_SET_ macros
--     Queue       `struct queue` as a ring: `get_queue`, `expand_queue`, `push_data`, `lpop`
--     Pending     the hash chains of `struct uncomplete`: `hash_fd`, `find_uncomplete`,
--                 `save_uncomplete`, `close_uncomplete`, `lclear`
--     Mask        `decode_wsmask_data`
--     Handshake   `websocket_strnpos` and `get_http_header`
--     Outcome     what a call returns, or what goes wrong in it
--     Push        `push_more`, and the steps that it shares with `filter_data_`
--     Filter      `filter_data_` and `lfilter`
--
-- MessageQueue: skynet/skynet-src/skynet_mq.c, the queues through which the services talk.
--   MessageQueue models one queue: `skynet_mq_create`, `skynet_mq_length`, `skynet_mq_overload`,
--   `skynet_mq_pop`, `expand_queue` and the part of `skynet_mq_push` before the global queue; the
--   name of a function is without its `skynet_`. MessageQueue/Global models the list of the queues
--   that wait for a worker: `skynet_globalmq_push`, `skynet_globalmq_pop`, `skynet_mq_push`,
--   `skynet_mq_mark_release` and `skynet_mq_release`. The functions that push and pop hold the
--   spin lock from their first access to the last, so that each is one step, and threads are
--   sequences of steps. An
--   assertion that fails is the result none. The loop of `skynet_mq_pop` has the length as fuel,
--   since the threshold is doubled and at least 1; the loop of `_drop_queue` has one unit more
--   than the messages.
--
-- TableHash: lualib-src/lua-hash.c, the hash code of a Lua table: `_hash_number`, `_hash_boolean`,
--   `_hash_string`, `_hash_one`, `_hash_table` and `lhash_table`. What Lua gives is the data: a
--   number by its bits, a table by its entries in the order of the iteration. Arithmetic on `int`
--   wraps at 32 bits.
--
-- SkipList: lualib-src/skiplist/skiplist.c, the sorted container behind the rankings; a function is
--   named without its `sl`. A `skiplistNode *` is an address in a store of nodes. The invariant
--   (SkipList/Inv) names the list of the addresses in order and says what every link, span and
--   pointer backward must be. Its parts:
--     Compare     `compareslObj` and `equalslObj`
--     Wired, Splice, Join, Zip   links and spans, given the nodes in order
--     Search, Path   the search over the levels: `update[]` and `rank[]`
--     Levels, Fields, Raise   what the loops of `slInsert` write
--     Order, Inv   the order of the elements, and the invariant
--     Place, Placed, Insert, Backward, Inserted, Growth, InsertLaw   an insertion, step by step
--     Query       `slGetRank`, `slGetNodeByRank`, `slIsInRange`, `slFirstInRange`, `slLastInRange`
--     Delete      `slDeleteNode`, `slDelete`, `slDeleteByRank`
--     Binding     lualib-src/skiplist/lua-skiplist.c: `_get_rank_range`, `_get_score_range` and
--                 `_delete_by_rank`
--   A walk has the length of the list as fuel, since each of its steps passes a node.
--
-- DataBuffer: skynet/service-src/databuffer.h, the bytes that the gate keeps for a connection:
--   `databuffer_push`, `databuffer_read`, `databuffer_readheader`, `databuffer_reset` and
--   `databuffer_clear`. The linked pieces are a list, and the pool of their nodes has no model.
--
-- Gate: skynet/service-src/service_gate.c, `dispatch_message` and `_forward`, which cut those bytes
--   into messages. The loop is on fuel: each of its rounds but the first takes a head, so that two
--   units more than there are bytes are meant.
--   A `Route` has the fields that say to whom a message goes, and a `Send` is what `skynet_send` is
--   given; "%d" is written out for the `snprintf`. Heads has the framed bytes that the theorems are
--   about, Digits and Sent what is due for a body, Reads, Frames and Stall what comes of the bytes.
--
-- Handles: skynet/skynet-src/skynet_handle.c, the table of the services: `skynet_handle_register`,
--   `skynet_handle_retire`, `skynet_handle_retireall`, `skynet_handle_grab`,
--   `skynet_handle_findname`, `_insert_name_before`, `_insert_name`, `skynet_handle_namehandle` and
--   `skynet_handle_init`; a function is named without its `skynet_`. What comes of a
--   registration is an `Outcome`, with a dereference of NULL, a failed assertion and a lack of fuel
--   told apart; elsewhere a failed assertion is none. The `for (;;)` of the registration is on fuel,
--   and so is that of `skynet_handle_retireall`; two units are meant. A search for a name has one unit more than there
--   are names. Names has the operations on names. Table, Probes, Rehash, Doubling, Fresh and Register
--   are about a registration, Wrap about one where the handles start over, Retire and RetireAll about
--   the end of handles, Search, Placing, Room, Naming and Adding about names.
--
-- Timer: skynet/skynet-src/skynet_timer.c, the timeouts of the services: `timer_add`, `add_node`,
--   `move_list`, `timer_shift`, `timer_execute`, `timer_update`, `skynet_timeout`,
--   `skynet_updatetime` and the start. A slot of a wheel is a list of nodes, and an event that is
--   dispatched is a result. The rounds of `add_node` and `timer_shift` are counted: there are at most
--   three and four. Slots names the slots, Waiting the events that wait for a time; Shift, Moves,
--   Linking and Cascade are about a step of the time, Update about a tick, Due about a timeout among
--   other calls.
--
-- Prelude has what the parts share: the library's names, Boolean tests, lists over the native
-- numbers, integers, exclusive or, and arrays used as rings.
--
-- The state of the C code is passed explicitly. A `struct queue *` on the Lua stack is an option
-- of a record; arrays are functions of the index; a buffer with its size is the list of its bytes.
-- An `int` that may be negative is a ℤ. The cast of a 64-bit length to `int`, the hash code and the
-- time of the timer wrap as they do in the code; other counters do not wrap.
--
-- A write behind the end of `header` and an allocation of a negative size are error values of the
-- model (WebSocket/Outcome), since the C code has no answer for them. The recursion of `push_more`
-- is on fuel, one unit more than the bytes that are left, and each round takes a byte at least.
-- The host is little-endian, as `read_size` and `ntoh64` take it to be.
--
-- Not modelled: the release of memory, `total_size` (which is only counted), the printing of
-- bytes, and the glue that hands a buffer to Lua. The client side (lua-clientwebsocket.c), the log
-- service and the rest of skynet/ have no model here; lua-cjson, luafilesystem, LuaPbIntf and
-- skynet/3rd are copies of other projects.
pub mod DataBuffer
pub mod Gate
pub mod Handles
pub mod MessageQueue
pub mod Prelude
pub mod SkipList
pub mod TableHash
pub mod Timer
pub mod WebSocket
