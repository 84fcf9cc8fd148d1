-- ===== src/Lib.antt =====
-- A model of the core of down_parse_client, the client that downloads and parses the pages of a task:
-- the task server starts a task, whose configuration writes a seed file; one feeding thread puts its lines
-- into a queue for the downloading threads, another one into a queue for the parsing threads; and the
-- state of the task goes to MySQL, where the parsed items go as well. The pages come through the download
-- server, which reads the lines of the seed file again. Each part is modelled from its C++ source; the
-- theorems say what it promises to the parts that use it.
--
-- Strings (down_parse_client/utils/Utils.cpp): ltrim, trim, rtrim and explode of class Utils. A string
--   is the list of its bytes. A trimming call leaves a string, hangs, or strays: reads str[-1]. The
--   loops are structural; the loop of explode has the length of the string and one more as fuel, and
--   each round shortens the string, so the fuel does not run out.
-- UrlCodec (down_parse_client/utils/Utils.cpp): ToHex, FromHex, UrlEncode, UrlDecode. A failing assert
--   is none.
-- UrlEncoder (down_parse_client/utils/URLEncoder.cpp): the table, the two encoders, and the state
--   machine of decoding. Table holds the tables and the reply of a call, Encode the encoders, Decode the
--   machine with its pointers as the bytes passed and the bytes ahead. Decode/Spec tells what decoding
--   means with no machine; Steps, Rounds and Refine are about the machine. It walks back over an
--   escape that is none, so its loop has fuel: four rounds for each byte and one more, since no byte
--   is passed more than four times.
--   Decode/Cstr is the machine that stops at a NUL.
-- Md5 (down_parse_client/utils/MD5.cpp): the object MD5 as a record, Transform the compression of one
--   block, with every sum modulo 2 ^ 32. Rfc is the MD5 of RFC 1321, written from the RFC; Spec is
--   the digest of a whole message with the compression of the source, and Agrees has that it is that of Rfc. Blocks
--   is about the loop over blocks, Hold tells when an object holds a message; Final and Again are about digest. The
--   loop over blocks has the length of the input as fuel, since each round takes 64 bytes; its index is a uint32,
--   so that inputs are shorter than 2 ^ 32 - 63 bytes in the theorems. Stream is the update from a file; the size of
--   the file and one is fuel enough, since each round but the last takes 1024 bytes.
-- Sql (down_parse_client/mysql/DB.cpp,
--   down_parse_client/mysql/mark_oss.cpp): paramMap, format_sql, format_where_cond, and the
--   statements of update, insert and insert_update, with bind_param_execute, query and execute. Listing has
--   format_orderby_limit and the statements of getTotal and getList. A map is the list of its
--   pairs in the order of its iterator. Execute is about what becomes of a statement at the server; Marks
--   counts the marks of a statement as the server does, Conditions and Where are about those of a clause.
--   Results has what fetch_one, fetch_row, fetch_all and getList make of the rows; a row is a list of columns
--   as they were fetched.
-- ParseQueue (down_parse_client/parse_client/parse_queue.cpp): addQueue and getQueue. The section under
--   the mutex is one step. A timed wait is a round of its own, with the queue as it is found behind it.
--   Threads has the runs: any sequence of such steps.
-- DownQueue (down_parse_client/down_client/down_queue.cpp): the same for the queue of maps.
-- Config (down_parse_client/clientConfig.cpp): the constructor of clientConfig, from the lines of the file
--   to the members, parseList, and the path of the seed file. Hosts is about parseList, Lines about the
--   whole file.
-- DownFeed (down_parse_client/down_client/down_func.cpp): send_queue, from the seed file and the disk to the
--   batches that it hands to addQueue of DownQueue. Batches is about their sizes.
-- Config/Item (down_parse_client/clientConfig.cpp): get_engine_item; Paths is about the pages' paths.
-- Seeds (down_parse_client/clientConfig.cpp): the loops of generateInfo that write the seed file, over the
--   pages of queries that the database gives. The loop over the pages has fuel: one round for each page and
--   one more, since it ends at the first empty page. Lines has the reading of a line behind the writing.
-- ParseFeed (down_parse_client/parse_client/parse_func.cpp): send_queue, from the seed file to the batches
--   that it hands to addQueue of ParseQueue, and check_sogou_parser.
-- Parsing (down_parse_client/parse_client/send_parse.cpp, parse_func.cpp): the parsing threads and the
--   thread that feeds them, as steps on what they share; Safety is about all runs. Parsing/Page is the loop of
--   do_send_parse that reads a page through a buffer, where no read fails; its fuel is the length of the file and one more, since each round but the last takes the size of the
--   buffer. Parsing/Request is do_send_parse: its Laws tell when a page is removed, Seeded what becomes of
--   a line that Seeds writes. A number that a call returns is a ℤ of Base/Int.
-- Downloading (down_parse_client/down_client/send_request.cpp, down_func.cpp): the downloading threads and the
--   thread that feeds them, as steps on what they share; a seed file that can not be opened is a step of its own.
--   Queued has what a call leaves in the queue.
-- Import (down_parse_client/clientConfig.cpp): import_item_file, import_db and check_parse_fail, with the
--   set in_db_item and the statements that go to execute. Insert is about the INSERT of an item, Once about
--   one pass over the seed file, Passes about several, Again about a page that is parsed again.
-- Engines (down_parse_client/clientConfig.cpp, down_parse_client/down_client/get_proxy_list.cpp): the loop of
--   generateInfo over the engines, update_proxy_list and get_proxy_list. Loop is about the engines, Proxies
--   about who asks for proxies and who is sent to the parsers of sogou.
-- DownServer (download_server/down_action/download.cpp, download_server/utils/Utils.cpp): run and
--   download_one_page, as what they do to the system in order, and gen_uuid. Names is about the temporary
--   files, Runs about one page, Leaves about a whole run, Queued about the lines that DownFeed queues.
--   DownServer/Settings (download_server/down_action/downConfig.cpp, download_server/downServer.cpp) is the
--   configuration and run_down; Last tells what the lines set, Handled what a request comes to.
-- TaskServer (down_parse_client/task_server_thrift/down_parse_client_serviceHandler.cpp): start, and the
--   course of task_func, the list of its calls for each way in which access, open and flock answer.
-- Base has what they share: lists over the native numbers, Boolean tests, byte strings, and in Maps
--   std::map with strings for keys.
--
-- Numbers are natural numbers, and a wrap of an unsigned type is written out. A size of a buffer is a
-- number of bytes; the tests pdest < pdestend are additions in place of subtractions of pointers.
-- Not modelled: the Thrift services and the code generated for them, pthread, MySQL and the file system,
-- which these parts only call; JsonCpp; and the older programs beside
-- down_parse_client and the download server.
pub mod Base
pub mod Strings
pub mod UrlCodec
pub mod UrlEncoder
pub mod Md5
pub mod Sql
pub mod ParseQueue
pub mod DownQueue
pub mod Config
pub mod DownFeed
pub mod DownServer
pub mod Downloading
pub mod Engines
pub mod Import
pub mod ParseFeed
pub mod Parsing
pub mod Seeds
pub mod TaskServer
