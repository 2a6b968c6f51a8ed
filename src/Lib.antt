-- ===== src/Lib.antt =====
-- CipherChat: a chat server and client in C that talk frames over TLS.
--
-- The parts, and the files that model them. Paths are from the root of the repository.
--
-- common.h, common.c
--   Wire: the sizes, the types of frames, and big-endian numbers (the reads and writes of
--   file_protocol.c). Transport: send_all, recv_all and the messages and frames on top of them. What
--   OpenSSL returns is a list of events, one for each call; a list that runs out is a call that has not
--   returned. Transport/Receive and Transport/RoundTrip are about receiving, Transport/Send and
--   Transport/Completes about sending.
-- file_protocol.h, file_protocol.c
--   FileProtocol: the encoders and decoders of the frames of a file transfer, and the tests of peer
--   and file names.
-- server_file_routes.h, server_file_routes.c
--   FileRoutes: the table of 400 transfers, keyed by sender and the sender's transfer id. The functions
--   are the ones of the source without the prefix file_routes_ (add is file_routes_add). Slots finds
--   entries, Alloc is about outbound ids, Invariant and Preserve about well-formed tables, Map and Abort
--   relate the operations to a map from transfers to entries, History is about sequences of calls.
-- client_manager.h, client_manager.c, server_messages.c
--   Registry: the table of 100 clients, their keys and their queues of outgoing frames. queue_frame is
--   queue_frame_to_client_id, send_frame send_frame_to_client_id, send_text send_text_to_client_id.
--   Invariant, Preserve and History are about well-formed tables, Queue about the queues, Ids about the
--   ids in use. A history starts from the static table, before or behind init_clients.
-- server_files.h, server_files.c
--   ServerFiles: the handlers of file frames. They decode a frame by FileProtocol, ask FileRoutes what to
--   do with it, and queue frames by Registry. The ends of a handler that the source writes in one function
--   are functions of their own (after_add, send_begin, forward_begin). Invariant is about the tables behind
--   them, Departure about whom abort_file_routes_for_client tells what.
-- command_parser.h, command_parser.c
--   CommandParser: parse_command.
-- server.c
--   Chat: the dispatch of the frames of a client that has logged in, the text commands, the registry
--   of public keys and the forwarding of ciphertexts; Chat/Invariant is about the tables behind them,
--   Chat/Routing about what a ciphertext becomes.
--   Login: handle_client, the thread of a client from its first message to its departure, with
--   add_client, activate_client and remove_client of Registry, the worker of Worker/Serve and the clean-up
--   of ServerFiles. Between two calls on the tables a function of the record Peer stands for what other
--   threads do. Leave is about what the thread leaves behind, Thread about the tables all through it.
-- server_worker.c
--   Worker: the loop of run_client_worker in rounds. A Host says what the loop calls (take_outgoing_frame,
--   the handler of frames), a Turn what OpenSSL, poll, the event counter and other threads do in one round.
--   Framing and Split are about what the loop hears, Sending about what it sends. Serve has
--   run_client_worker itself: the event counter, fcntl, and the loop on the tables of the server.
-- client_files.h
--   FileCrypto: the encrypted form of a file, made in client_file_sender.c and opened in
--   client_file_receiver.c.
-- client_file_sender.c
--   FileSender: send_file. The frames passed to send_frame are recorded on a Line. send_chunks is the loop
--   over the encrypted bytes; it takes their number as fuel, and each round sends at least one.
-- client_file_receiver.c
--   FileReceiver: the table of 16 incoming files and the handlers of file frames. Invariant and Preserve
--   are about well-formed tables, Transfer about the frames of a whole file.
-- client.c
--   Client: the loop of main behind the login, with the frames of the server, the commands of the user and
--   the pending packages. Client/Login is the prompt for the name and the welcome, Pending is about the
--   packages, Message about a message on its way through both clients and the server.
--
-- Numbers are natural numbers; the source's 32-bit and 64-bit sums keep their wrap-around. A C string is
-- the list of its bytes without the terminator, and a buffer with its length is a list. A function that
-- returns -1 with errno returns an error. Checks for NULL pointers, which the callers never pass, are
-- left out. Each table is read and written under its mutex, so that a call is one step, and a history
-- is a sequence of calls. Where the source ignores the result of a call, so does the model. What is printed
-- on a terminal is left out on the server and recorded by its kind on the client.
--
-- Parameters: the record Os says what malloc, eventfd and eventfd_write return at each call. The loop that
-- repeats eventfd_write at EINTR is one call with its last outcome. The search for an outbound id takes
-- its 401 attempts as fuel, as the loop of the source does: one more than there are slots. Box is what the
-- code uses of crypto_box, with the laws of its documentation: a sealed message is 16 bytes longer, and
-- between two key pairs it opens to what was sealed. Source and Answers are what the file system, malloc
-- and stdio answer, World is what an event of the client meets. Peer is what the thread of a client meets:
-- the answers of send_message and fcntl, the bytes of the client, the rounds of the loop, and what other
-- threads do between its calls.
--
-- Not modelled: main and stop_server of server.c; network.c (sockets and OpenSSL, input and output
-- throughout); the set-up of client.c and a failing poll; the TLS handshake and the timeouts of sockets;
-- the removal of staging files; the printing of log lines.
pub mod Prelude
pub mod Text
pub mod Status
pub mod Wire
pub mod FileProtocol
pub mod FileRoutes
pub mod Registry
pub mod ServerFiles
pub mod CommandParser
pub mod Transport
pub mod Chat
pub mod Worker
pub mod Login
pub mod FileCrypto
pub mod FileSender
pub mod FileReceiver
pub mod Client
pub mod Tests
