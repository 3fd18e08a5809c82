-- ===== src/Lib.antt =====
-- The multi-client chat server: a TCP server in C whose worker threads read command lines from
-- connections, keep rooms, members and message histories in memory, and answer and broadcast lines.
--
-- The parts, and the files that describe them:
--   Table.antt         the arrays of pointers with a count: `members` of room_t, `room_list` and
--                      `client_list` of src/registry.c, with the shift loops
--   History.antt       the circular message history of a room: room_add_history, room_send_history,
--                      room_find_message, room_edit_message, room_delete_message of src/registry.c,
--                      and the loop of create_room that loads rows of the database
--   RateLimit.antt     rate_limit_check of src/client_handler.c
--   Room.antt          room_t and client_t of include/registry.h
--   Registry.antt      src/registry.c: rooms and clients by address, create_room, find_room,
--                      room_add_member, room_remove_member, room_broadcast, delete_room,
--                      create_client, delete_client; create_client_force of src/client_handler.c;
--                      calls on clients stand in Clients.antt below it, broadcasts in Broadcast.antt
--   Presence.antt      src/presence.c: the table of typing indicators
--   ThreadPool.antt    src/threadpool.c: the queue of jobs, and a worker's critical sections; below it
--                      Service.antt, the server's thread, epoll and all workers as steps of one
--                      system, and Shutdown.antt, the thread handles and threadpool_destroy
--   Protocol.antt      src/protocol.c: parse_incoming_command_server and the format functions
--   Handler.antt       src/client_handler.c: one file below it for each group of commands of
--                      process_line, pre_parse_srijal_commands in PreParse.antt, and process_line
--                      itself, with the test for a login, in Dispatch.antt; handle_client's buffer of
--                      a connection in Buffer.antt
--   Store.antt         SQLite as the code calls it; below it src/block.c, src/permission.c,
--                      src/invite.c, src/receipt.c, and the commands' use of them in Handler/
--   Database.antt      src/db.c and src/session.c: messages, users, sessions and rooms
--   LoginRate.antt     src/server.c: find_login_rate and server_check_login_rate
--   Config.antt        src/config.c: the parser of the settings
--   Server.antt        src/server.c: conn_send, and the periodic calls of the event loop
--   Client.antt        replies/client.c: the replies that the terminal client shows, its receiver
--                      thread, and the loop over the typed lines; Display.antt: src/display.c
--   Redis.antt, Postgres.antt, Log.antt, Metrics.antt
--                      src/redis.c, src/pg.c, src/log.c, src/metrics.c
--   Chat.antt          one message from the keyboard of a client to the screens of the others: the parts together
--   Prelude.antt       numbers, lists, texts and faults, shared by all
--
-- A line goes through the two parsers (Handler.Dispatch.parse_line), past the test for a login (gate)
-- and into the case of its command. A case calls the registry, which calls the pointer arrays and the
-- histories; what it sends, and the calls of the database whose answer it does not use, are the
-- effects of its outcome. Functions below the files above hold the facts: History/Replay.antt says
-- what a reader of the history sees, Table/Laws.antt what list an array holds, and so on.
--
-- Pointers are addresses. A registry maps addresses to rooms and clients; a call that would follow a
-- NULL or dangling pointer has no result (none). What malloc, the clocks, rand() and the database
-- answer is an argument. A text is the list of its bytes. Numbers are unbounded: the counters of the
-- source stay far below the bounds of int, and the history's counter is limited by the source itself
-- (1000000); the facts on histories ask for a capacity up to that. Decimal output takes 20 digits,
-- which hold every 64-bit number; the loop over the lines of a buffer takes as many rounds as the
-- buffer has bytes. There is no other fuel.
--
-- Each call of the registry is one critical section of the source, and a handler runs here with no
-- other between its calls: races between two handlers are not described. A worker of the pool is
-- described one critical section at a time, in any order.
--
-- SQLite is a parameter (Store.Sqlite): a statement's text and its bound values give a result code,
-- rows and the next database, or nothing where the statement cannot be prepared. Facts on what a
-- table remembers have the table's laws as a hypothesis, one record for each kind of table
-- (Store.Records.Tables, Database.Pages.MessageTable, Database.Logins.UserTable,
-- Database.Tokens.SessionTable); the tests fill each with a concrete table. SHA-256, the random bytes
-- of a token, and C doubles with atof are parameters too. The rounds of db_create_session are as many
-- as the tokens given; the pages of Database.Cursor take a fuel, and a fact says how much is enough.
--
-- The commands HISTORY, ROOMS, WHO, SESSIONS, REVOKE_SESSION, LOGOUT_ALL, READ, TYPING, STOP_TYPING,
-- BLOCK, UNBLOCK, MUTE, UNMUTE, BAN, DEMOTE, CREATE_PRIVATE, INVITE, ACCEPT and DECLINE work on databases
-- and the typing table besides the registry (Handler/Listing, Typing, Moderation, Invites). In
-- Handler.Dispatch.process_line, which is about the registry alone, they are one parameter; in
-- Handler.Serve.serve, on all of the state, each reaches its handler. The rows that REGISTER, LOGIN,
-- RECONNECT, CREATE and MSG insert do not get into the databases of serve: the answers to these commands
-- are arguments. The sources open one file once for each handle; in Handler.Handles each handle has a
-- database of its own, so that a write through one is not seen through another (`sessions` is the one table
-- that two handles use).
--
-- Connections go from epoll to the queue, to a worker, and back: ThreadPool.Service takes these moves
-- one at a time in any order. That epoll reports a connection once until it is armed again is the
-- documented behaviour of EPOLLONESHOT, and that malloc gives an address that is not in use is its
-- documented behaviour. hiredis and libpq are parameters (Redis.Hiredis, Postgres.Libpq), and so is
-- USE_HIREDIS and USE_PG. What `send` and `recv` return is an argument: conn_send runs over a list of
-- results, receiver_thread over a list of portions. The client's strtok_r is the one of glibc, whose
-- pointer to the rest is never NULL. The loops over words take as many rounds as the text has bytes and
-- one more, the loop that frees the jobs one more than the queue is long.
--
-- handle_client takes the flag `closing`, which the event loop sets on EPOLLRDHUP, EPOLLHUP and EPOLLERR, the
-- bytes that are pending, and what conn_recv says behind them. rate_limit_check counts nanoseconds as whole
-- numbers in place of a double; conn_send is the branch without TLS; threadpool_destroy is what the calling
-- thread does, and the workers' steps until they are joined are not part of it.
--
-- Not described: TLS, sockets and signals in src/server.c and replies/client.c, the start of run_server
-- and the order of its shutdown; db_open and the hexadecimal digits of src/db.c. Log lines and
-- the counters of src/metrics.c are left out of the other parts, and so are failures of malloc for the
-- copies of socket lists that a broadcast makes.
pub mod Prelude
pub mod Table
pub mod History
pub mod Room
pub mod RateLimit
pub mod Presence
pub mod ThreadPool
pub mod Registry
pub mod Protocol
pub mod Handler
pub mod Store
pub mod Database
pub mod LoginRate
pub mod Config
pub mod Display
pub mod Client
pub mod Server
pub mod Redis
pub mod Postgres
pub mod Log
pub mod Metrics
pub mod Chat
