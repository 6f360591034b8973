-- ===== src/Lib.antt =====
-- google-gtags: a server that answers queries about the tags (definitions and callers) of a code base,
-- and the programs around it. This development models the core that the server rests on.
--
-- The parts of the program. A tags file is a text of s-expressions, which sexpression.cc reads from a
-- character iterator (iterators.h). tagstable.cc turns the declarations of that file into a table of
-- tags, indexed by tag and by file; paths are objects of filename.cc. Servers (tagsrequesthandler.cc,
-- socket_server.cc, pollserver.cc) read commands, which are s-expressions too, query the table, and
-- print the answers with the printer of sexpression.cc and the helpers of strutil.cc. A mixer
-- (gtagsmixer.cc) merges the answers of several servers; a watcher (filewatcher.cc) and an agent
-- (indexagent.cc) keep a table up to date.
--
-- The files.
--   Prelude and its children: names shared by all files; a `Result` of a call, where `fatal` is a CHECK
--     that fails (the process ends) and `undefined` is undefined behaviour of C++; the signed integers.
--   Strutil: strutil.h and strutil.cc. A string is the list of its bytes; a `const char*` is the list up
--     to the terminator (`c_str`).
--   Sexp: sexpression.h. `SExpression` has a constructor for each class. Sexp/Parser is the reader
--     (`Parse`, `ParseSexp`, `ParseList`, ...): a method takes the text that is left and returns it with
--     what it read, NULL as `none`. `ParseSexp` and `ParseList` call each other and run on fuel, twice
--     the length of the text and two, since each pair of calls passes a character. Sexp/Printer is `Repr`,
--     Sexp/Iterator is `SExpressionConstIterator`. The proofs: Sexp/Escapes, Tokens, Items,
--     Readback, Weight and RoundTrip for reading back what was printed, Sexp/Ends and Termination for
--     the end of all loops, Sexp/Flaws for inputs on which the code does otherwise than it means to.
--   Filename: filename.h and filename.cc, with Filename/Order, Distance and Str for the proofs.
--   TagsTable: tagstable.h, and the queries and unloading of tagstable.cc. A container is the list of its
--     elements: the multimap in its order, with equal tags in the order of insertion, and the hash
--     tables in any order, which no theorem reads. A `TagsResult` has an address, by which `UnloadFile`
--     finds it again. TagsTable/Declarations is the parsing of items and descriptors, TagsTable/Load the
--     three kinds of declarations and the loop of `LoadTagFile`, whose fuel is one turn for each
--     character. The proofs: TagsTable/Sorted for the order of the multimap, Query for the queries,
--     Unload and WellFormed for the invariant and unloading, with WellFormed/Directory for the files of a
--     directory, Stops for the end of every reading,
--     Snippets for what an item becomes.
--   PcQueue: pcqueue.h, the queue between the threads of a server. The statements of `Put`, `Get`,
--     `TryPut`, `TryGet` and `count` are the steps of a thread (`Step`); `Run` interleaves the steps of
--     any number of threads. A `TryPut` or `TryGet` that meets a locked mutex is in `Contended`.
--     PcQueue/Invariant counts slots and elements, PcQueue/Safety has the theorems.
--   SexpUtil: sexpression_util.h, sexpression_util.cc and sexpression_util-inl.h.
--   Mixer: gtagsmixer.h and gtagsmixer.cc. The mutex of an object makes each of its methods one step; a
--     deleted object is the value `none`. Mixer/Holder has the calls that the connections of a source
--     make, Mixer/Order the reports of the two sources, in any order.
--   PollServer: pollserver.h and pollserver.cc. The arrays are a list of places; `poll` itself, the loop
--     around it and the handlers of the pollables are not modelled, the handlers being parameters of
--     `handle_poll_events`. PollServer/Slots and Vacate are about places, PollServer/Refines about the
--     map that they make.
--   WatchMap: `JoinPath` and `PathnameWatchDescriptorMap` of filewatcher.cc. EventFilter: the events of
--     inotify and the filters. FileWatcher: the watcher and its handlers; a hash table is a list of
--     its elements (Prelude/Dict). FileWatcher/Directories has `AddDirectoryRecursive` over a tree of what
--     `readdir` and `lstat` give, FileWatcher/Dispatch the handlers and `ProcessEvents`, whose loop has a
--     turn for each byte of the buffer. What `inotify_add_watch` returns for a path is a parameter. The
--     proofs: WatchMap/Inverse and Joined, FileWatcher/Walk, Upkeep, Events and Excludes.
--   RequestHandler: tagsrequesthandler.h and tagsrequesthandler.cc. What a handler is built with and
--     calls is an `Environment`; the content of a file is a parameter. RequestHandler/Opcode and Protocol are
--     the two protocols, Query is `TranslateInput`, Server the handlers that choose or filter. The
--     proofs: RequestHandler/Answers and Lookups, on Sexp/Reads, for what a client reads, Requests
--     for what a client sends, Roots for `StripCorpusRoot`.
--   Socket: pollable.h, pollable.cc, socket.h and socket.cc. `Connected` is a `ConnectedSocket` with what its
--     subclass keeps, and `Methods` the virtual methods; what `recv`, `write`, `accept` and `connect` give to a
--     handler is its argument, a list where the handler calls in a loop, which must hold an answer for each call.
--     Socket/Listener, Client and Rpc are the other classes. The proofs: Socket/Delivery for the loops, Closing
--     and HandOver for the poll server, Completes for a whole call.
--   WatcherRequests: filewatcherrequesthandler.h and filewatcherrequesthandler.cc, and WatcherRequests/Service the
--     socket and the client of socket_filewatcher_service.cc. The queue is the list of the commands on it, its
--     order being that of PcQueue. The proofs: WatcherRequests/Sent for the text of a client, Pushed for what
--     arrives, Excluded for the worker.
--   MixerRequests: mixerrequesthandler.h, mixerrequesthandler.cc, datasource.h and datasource.cc. `Execution` is
--     what `Execute` starts, and `responses` what the response callback gets from it, with the holders and the
--     mixer of Mixer, for the calls that the services make. MixerRequests/Settings is the loading of settings.cc,
--     Answered the way of a client's request.
--   IndexAgent: indexagent.h and indexagent.cc, a turn of the agent's loop. What the system gives for temporary
--     files is a list, which must have an answer for each try, and so is what the other threads put on the queue
--     in front of each call of `TryGet`, and whether one holds its mutex. IndexAgent/Requests is about the files
--     that a turn takes, Arguments about those of a command, Round about a turn.
--   VersionService: the socket and the client of socket_version_service.cc, with VersionService/Asked for their
--     proofs.
--   A file named Tests holds runs on concrete inputs.
--
-- Numbers are unbounded where the code uses `int` for a size or an index; the value of a token is
-- checked against the range of a 32-bit `int` where the code reads it. Memory is not modelled: an object
-- is its value, and deleting it has no effect but for what its destructor calls. The C library's regular
-- expressions are a parameter.
-- Not modelled: the table of symbols, whose strings the clients only compare by what they hold; the sockets
-- of the tags server and of the mixer, the users of remote services, and the options of the command line; and
-- files, the calls of the system for sockets, the creation of threads, and logging but for what it reads, which
-- are input and output.
mod Prelude
pub mod Strutil
pub mod Sexp
pub mod Filename
pub mod TagsTable
pub mod PcQueue
pub mod SexpUtil
pub mod Mixer
pub mod PollServer
pub mod WatchMap
pub mod EventFilter
pub mod FileWatcher
pub mod RequestHandler
pub mod Socket
pub mod WatcherRequests
pub mod MixerRequests
pub mod IndexAgent
pub mod VersionService
