-- ===== src/Lib.antt =====
-- LogService: programs hand their log lines to a sender over shared memory, the sender passes them to
-- a server as the request lines of HTTP, the server writes them to a queue in shared memory, and a
-- log processor stores them in bulks and answers queries over a second queue.
--
-- The parts, each with its child modules for what is proved of it:
--   Client (src/log_service/log_service.cpp): the message of `cody_log_string`.
--   UrlEncode (src/common/url_encode.cpp): `url_encode` and `url_decode`.
--   HttpParser (src/common/http_parser.cpp): `ParseReq` and `Get_parameter`.
--   ReqData (include/Http_parser.h): the requests, `Valid` and `Need_send_back`.
--   MsgQueue (include/MsgQueue.h): the ring in shared memory, as the list of its slots.
--   LogServer (src/log_server/log_server.cpp): the maps between clients and connections, the way of
--     requests to the queue, and of result blocks to the connections; LogServer.Sockets reads from and
--     writes to a connection.
--   Epoll (include/Epoll.h): the interface to the calls of the operating system on descriptors.
--   Sender (src/log_sender): the events of a connection in `log_sender` and in `short_sender`, with the
--     loops of the latter in Sender.Short.
--   Bulk, with Bulk.Words (include/Data_manager.h, src/log_processor/data_manager.cpp): `MemoryBulk`,
--     a block of text with its index; Join and TimeSearch are the routines of its searches.
--   Trie (include/Trie.h): the dictionaries of the index, with the template's flag as an argument.
--   LogFile (src/log_processor/LogFile.cpp, include/LogFile.h): the text of the files, LogFile.Tries those
--     of the tries; LogFile.Names are the names of the files.
--   Handler (src/log_processor/MemoryBulkHandler.cpp): the states of a bulk and what of it is in
--     memory; Handler.Calls saves it, drops it and searches it.
--   DataManager (src/log_processor/data_manager.cpp): the list of the handlers, newest first, the global
--     trie of keys and `Append_log`; DataManager.Queries and DataManager.Times answer, with the loops
--     of DataManager.Sending and the texts of DataManager.Notes.
--     DataManager.Keys relates the key tries of the bulks and the global trie to the logs.
--   Processor (src/log_processor/log_processor.cpp): the dispatch of the requests, and the loop over
--     them; Processor.Service is what it promises for requests to append, to list, to look up by key
--     and to count.
--   TimerWheel (include/TimerWheel.h): the three wheels of timers, TimerWheel.Wheel of one of them and
--     TimerWheel.Run of several ticks.
--   PersistenceWorker (src/log_processor/Persistence_worker.cpp): a round of the thread that saves the
--     bulks of a pool that fills up, and ticks the timers.
--   RwLock (include/RWLock.h): the lock of a handler.
--   QueryResult (include/QueryResult.h and `QueryResultHandler` of data_manager.cpp): the result blocks;
--     QueryResult.Blocks are the blocks that lines fill.
--   System: the way of a log from the client through the server to the log processor.
--   Config (include/Config.h) holds the constants, Decimal the parts of the C and C++ libraries that
--   print and read numbers, Prelude the names that all modules share.
--
-- Numbers are native; a `uint64_t` or an `int` that can wrap is taken modulo its size. Text is the
-- list of the bytes in front of the terminating NUL. A null pointer and -1 are `none`, where -1 is no
-- value otherwise. Loops that no list drives run on fuel: the parser has one round for each byte of the
-- query and one more, the join as many as the lists have elements and one more, the binary searches
-- as many as there are serials and one more, the printing of a number at least one for each digit, and
-- the saving of a trie one for each node, as many as the depth of the trie that is read can be. A
-- theorem about such a loop is about the result, so that the fuel given is enough where it holds.
--
-- What the sockets answer is an input, one answer for each call, and `epoll_ctl` is a parameter.
--
-- A new bulk takes a unit of the pool of buffers: `free_units` says how often there is one to take, and where
-- there is none `New_BulkData_init` does not end and the call returns nothing. A theorem about requests
-- to append has the units that it needs as a hypothesis. Each handler has files of its own;
-- DataManager.Files says when their paths differ.
--
-- Not modelled: the calls of the operating system themselves, setting up sockets and shared memory,
-- opening files, threads other than as steps of the lock and schedules of the queue's reader, and
-- the program that sends test logs.
-- An unordered map is a list of pairs, whose order stands for the order of its iteration.
pub mod PersistenceWorker
pub mod Prelude
pub mod Decimal
pub mod MsgQueue
pub mod RwLock
pub mod UrlEncode
pub mod Config
pub mod ReqData
pub mod HttpParser
pub mod Client
pub mod TimerWheel
pub mod Trie
pub mod Sender
pub mod System
pub mod TimeSearch
pub mod Join
pub mod LogFile
pub mod QueryResult
pub mod LogServer
pub mod Bulk
pub mod Epoll
pub mod Handler
pub mod DataManager
pub mod Processor
