-- ===== src/Lib.antt =====
-- The server of a shared notepad. It accepts TCP clients, logs each one in or registers it, and passes
-- the edits of every editor on to the others. This library models the server's code in C++ (folder
-- server); the clients in Python and Java are other programs.
--
-- A message is a header of six digits, two for the type and four for the length of the body, and the
-- body. The server is one thread around `select`: it handles one readable or writable descriptor at a
-- time, with sockets that do not block, so a message may take many calls. What is left of it is
-- kept for each descriptor.
--
-- The files, and what they model:
--   Base: Booleans, lists, integers and outcomes. A fault stands for an exception that nothing catches
--     or for undefined behaviour: either ends the process.
--   Text: decimal numbers, substr, find, stoi, atoi and the comparison of std::string.
--   IntMap: std::map and std::set over descriptors, as a list in the order of iteration.
--   Header, MsgType, Message: server/Header.cpp, server/Message.h, server/Statement.cpp,
--     server/ClientID.cpp, server/Edit.cpp.
--   ByteWidth, Host: get_byte_width and print_host of server/serv_func.cpp.
--   RecvBuffers: server/RecvBuffers.cpp, the bytes received so far.
--   ClientsMonitor: server/ClientsMonitor.cpp, the progress of each descriptor and the logins;
--     LifeCycle is a machine of phases, written apart from the code, that they are compared with.
--   Networking: server/Networking.cpp, the message being exchanged and the queues of unsent ones.
--   Note: server/Note.cpp, the document as a set of coded characters.
--   Files, TextFileHandler: server/FileIOHandler.cpp and server/TextFileHandler.cpp.
--   LoginHandler: server/LoginHandler.cpp, the users' file.
--   NotepadHandler: server/NotepadHandler.cpp, the editors and the changes that they owe each other.
--   Server: server/Server.cpp. State is the object and its state monad; Transfer is send_msg and
--     recv_msg; Login is client_login; Incoming and Outbound are the two handlers of a connection; Run
--     is the main loop and handle_new_connection; Listening is the set-up of the listening socket;
--     Process is `run` from its first line to its last with the closing of the sockets, and `main` of
--     server/main.cpp.
--   Examples: the theorems at concrete inputs.
-- A member function keeps its name, takes its object last and leaves the new one. `open` and `init`
-- of NotepadHandler are `open_file` and `load_file`; toString of Note is `to_text`.
--
-- Inputs of the model: the kernel's answers to `send` and `recv` are two lists in the state of
-- Server, past whose end every call would block. The answers of `select` and `accept` are arguments
-- of `run`, those of the calls that set the listening socket up an argument of `set_listening`. The
-- file system is a map from names to contents, in which a file that is there can be opened, and a
-- directory is there when a name lies in it. Of the descriptors that `select` is told are readable,
-- it leaves those that it was asked about. The state holds which sockets are open, as the kernel
-- keeps them for the process: `socket` and `accept` open one, `close` closes one, or is noted when
-- it was not open. A variable that the source reads before it is set is an argument.
--
-- Bounds: an int of the source is an integer without bound, which is right as long as lengths,
-- positions and descriptors stay below 2^31. A descriptor of 1024 (FD_SETSIZE) or more that enters
-- the set of descriptors is undefined behaviour. `send_nbytes` gives the kernel a pointer into a
-- string that is gone: up to 15 bytes stand in the string itself (in the GNU library) and are taken
-- to be still there; more are in memory that was freed, and reading them is undefined behaviour. The
-- loop of `split` has the length of the text as fuel, which a round shortens by the delimiter. The
-- loops of `client_login` and of the two handlers have a number of rounds as fuel, and end in the
-- fault `out_of_fuel` past it; each round that is followed by another one takes an answer of the
-- kernel, in the states that the results name. The loop over the descriptors has a round for each,
-- and `cleanup` one for each descriptor up to its bound.
--
-- Not modelled: the options' names and the address family of the system calls, and the trace on the
-- standard output, but for the line of print_host, which takes the answers of the resolver. `std::sort`
-- is an insertion sort. The headers of the C++ library, the kernel and the file system are not part of
-- the repository.
mod Base
pub mod Text
pub mod Header
pub mod ByteWidth
pub mod Host
pub mod MsgType
pub mod Message
pub mod IntMap
pub mod RecvBuffers
pub mod ClientsMonitor
pub mod Networking
pub mod Note
pub mod Files
pub mod TextFileHandler
pub mod LoginHandler
pub mod NotepadHandler
pub mod Server
mod Examples
