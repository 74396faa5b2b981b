-- ===== src/Lib.antt =====
-- The chat server of a3/: the C program that keeps the members and rooms of one chat session.
--
-- The server of a3/server_main.c waits in select. It reads control messages from TCP sockets
-- (process_control_msg), chat messages from one UDP socket (process_chat_msg), and sweeps quiet
-- members and empty rooms when select times out. All of them work on the same global lists: the
-- members, the rooms, and the members of each room, linked through pointers in the objects.
--
-- Files, and the code they model:
--
-- - Base, Base/Tests, Base/Lists, Base/Outcome: tests on numbers, lists, and how a piece of C code
--   ends (a value, a fault, exit, or the end of the fuel).
-- - Protocol, Protocol/RoundTrip: the constants and the control header of a3/defs.h, and
--   ntoh_control_header of a3/server_util.c.
-- - Chain and below: doubly linked lists; unlinking as in remove_member, appending as in
--   process_switch_room_request and process_register_request.
-- - Search: the loops that look for a node of a list.
-- - Server: the state (struct member_type, struct room_type and the globals of a3/server.h), and
--   send_control_msg_reply. A pointer is a number, 0 is NULL, and each field of the objects is a
--   function of the pointer. `member_live` and `room_live` tell which objects are allocated.
-- - Server/Members: find_member_with_id, remove_member. Server/Rooms: create_room, remove_room.
--   Server/Requests: process_create_room_request, process_room_list_request,
--   process_switch_room_request, process_member_list_request, process_quit_request.
--   Server/Registration: process_register_request. Server/Control: process_control_msg. Server/Chat:
--   process_chat_msg. Server/Sweep: the two loops of main after a timeout. Server/Start: the rooms of
--   the room file in init_server.
-- - Session: the invariant, which says what lists the pointers stand for. Below it, for each
--   operation, a module that relates the code to an operation on these lists: Leave, Remove, Enter,
--   Switch, Find, RoomList, Added, Create, CreateReply, RoomNames, RoomWords, RoomFile, Drop,
--   SweepRoom, RoomSteps, SweepRooms, Crash, MemberSteps, Quiet, Enrol, Draw, Register, Sender, Label,
--   Broadcast. Session/Decimal, Session/Joined, Session/ListTexts, Session/ListReplies: the texts of
--   the two list requests.
-- - Session/Safe and below: the condition that all operations keep (Creation, Requests, Arrivals,
--   Sweeps, Control), in Handled what each control message leads to, and in Reach the events and the
--   states that they lead to.
-- - Server/Buffers: what is read back from a buffer with zeros behind its contents.
-- - Connections, Connections/Place, Connections/Reading: fd_table and max_fd_idx of main in
--   a3/server_main.c, a new connection and the scan for readable ones.
-- - Client, Client/Wire, Client/Answer, Client/Send: the requests and answers of
--   a3/client_to_server_sender.c. Client/Reconnect and below: send_control_msg and re_register_func of
--   that file, over a sequence of connection attempts. Client/Location: refresh_chatserver of
--   a3/chatserver_manager.c, with send_http_request of a3/http_connection.c. Client/Dialogue: a
--   registration from the client through the server and back. Client/Command: the commands of
--   a3/client_main.c. Client/Tcp, Client/Tcp/Sizes: the read loop of a3/tcp_connection.c, and the
--   answers that fit its buffer. Client/Tcp/Rooms: the list of rooms from the server to the user.
--   Client/Core and below: the user's requests in a3/client_core.c, and chat_interface of
--   a3/client_main.c.
-- - Receiver, Receiver/Loop: the receiver process of a3/client_recv.c. Receiver/Manager:
--   a3/receiver_mgr.c. Receiver/Startup, Receiver/Delivery: the two together. Receiver/Relay: a chat
--   message from the client through the server to the receiver.
-- - Examples, Examples/State, Examples/Requests, Examples/Messages, Examples/Outages, Examples/Events,
--   Examples/Talk: a small state, and the results at concrete inputs.
--
-- Modelling. Undefined behaviour is the outcome `fault`: an access through NULL or through a freed
-- object, a copy past the end of an array, a counter below zero, or one of a member's chat counters
-- past an int. Loops over a list get one round more than the list's counter says; the results that a
-- loop ends show that this is enough. The loop that draws ids runs over a list of the values of rand
-- and is out of fuel at its end. The operating system and the C library are parameters: malloc's
-- object, rand's values, RAND_MAX, getpeername's address, gethostbyaddr's success, what read and
-- recvfrom give, what sendto returns, and what the socket, queue and process calls of the client
-- answer. The client's loops that wait run over a list of such answers, or on fuel for each attempt. A
-- copy past the end of a block from malloc is a fault; only for the one block that every look-up of a
-- server overruns by a byte, a parameter says how many bytes malloc really gave.
--
-- Not modelled: the log, the fields that no code reads, the start of the server (sockets and
-- arguments), select itself, and of the client its options, its start and heartbeat thread
-- (a3/client_core.c), and the other socket calls of the connection files.
pub mod Base
pub mod Chain
pub mod Search
pub mod Protocol
pub mod Server
pub mod Session
pub mod Client
pub mod Connections
pub mod Receiver
pub mod Examples
