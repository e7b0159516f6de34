-- ===== src/Lib.antt =====
-- MyMusic: a music service of a Qt client and several C++ servers (gate, session, status, storage,
-- verification). This library models the parts that hold the service's own data and its wire format.
--
-- Parts and files
--   Base        Booleans on native numbers, lists, the source's `int` (ℤ), texts as lists of bytes.
--   Sql         the tables of Server/resoure/sql and the effects of a DAO method: `World` is the tables,
--               the engine's collation and date tests (parameters), whether the connection pool has
--               stopped, and a failure for each statement to come. Sql/Insert is insertRecord.
--   Dao         Server/SessionServer/MysqlDao.cpp and the combined calls of MysqlManager.cpp:
--               Dao/Catalog has artists, albums, songs and their links, Dao/Playlists the playlists,
--               Dao/Reading the lookups, Dao/Lists the lists of music that a client sees. A method keeps
--               its name: getOrCreateArtist is get_or_create_artist.
--   Wire        the frames between client and session server: Server/SessionServer/MessageNode.h,
--               the reads of Session.cpp, and slot_send_data of MyMusic/MyMusic/tcpmanager.cpp.
--               Wire/Outbox is the send queue of Session.cpp, whose writes are reported as done or failed.
--   Client      the reader of MyMusic/MyMusic/tcpmanager.cpp: Client/Incoming/Whole composes it with the
--               server's sender, Client/Incoming/Ends shows that its loop ends.
--               Client/Answers has the handlers of initHandler, with what they set in UserManager.cpp and
--               the heartbeat of mainwindow.cpp; each gives its signals.
--   Json        the answers that the session server sends, as JSON (Json/Answers), and what the two JSON
--               libraries promise each other.
--   MysqlPool   the class MySqlPool of Server/SessionServer/MysqlDao.h, with the thread of its check.
--               MysqlPool/Users has the step relation of its users and the check.
--   Redis       the calls of Server/SessionServer/RedisManager.cpp, which the other servers repeat, over an
--               interface of commands. Redis/Lock is DistributeLock.cpp, Redis/Counts the login counts,
--               with std::to_string and std::stoi as far as they are used.
--   Account     the accounts: /get_verifycode, /get_reset_verifycode, /user_register, /get_password_salt
--               and /reset_password of Server/GateServer/LogicSystem.cpp with its MysqlDao.cpp,
--               MysqlManager.cpp and VerifyHashes of Encrypt/Encrypt.cpp, and GetVerifyCode of
--               Server/VerifyServer/VerifyServiceImpl.cpp.
--   Status      Server/StatusServer/StatusServiceImpl.cpp, and /get_server at the gate, which calls it.
--   Storage     UploadAudio of Server/SessionServer/StorageGrpcClient.cpp and the receiving end,
--               Server/StorageServer/StorageServer/gRPC/StorageServiceImpl.cpp.
--   Logic       handlers of Server/SessionServer/LogicSystem.cpp over an interface of Redis commands:
--               CheckToken, HeartBeatHandler, CollectSongHandler; Logic/Login has LoginHandler, GetBaseInfo
--               and DealExceptionSession of Session.cpp, Logic/Lists the two handlers that list a playlist;
--               Logic/Login/Sweep is On_Timer of Server.cpp.
--   Dispatch    the queue of Server/SessionServer/LogicSystem.cpp: PustMsg, Run, RegisterCallBack and the
--               destructor, as steps that the threads take in any order.
--   Base64      decode_base64 of the same file; two iterators of boost are parameters.
--   Registry    the sessions of Server/SessionServer/Server.cpp and UserManager.cpp, with NotifyKickUser of
--               SessionServiceImpl.cpp. Registry/Bound has the steps of other users and sessions between a login and a kick.
--   Uploads     the spool of UploadFileHandler in LogicSystem.cpp; a spool key and the path of its temporary
--               file are the pair of uid and cleaned name. Uploads/Delivered goes on to the storage server,
--               Uploads/Metadata is UploadMetaTypeHandler, Uploads/Slices the client's loop in
--               MyMusic/MyMusic/UploadWidget.cpp.
--   ImgFmt      Server/SessionServer/Common/Tools/ImgFmtInspector.
--   Url         the URL coding and the query parameters of Server/GateServer/HttpConnection.cpp.
--   BlockQueue  MyMusic/MyMusic/Common/blockqueue.h, the queue between the player's threads.
--   Tests       the theorems at concrete inputs.
--
-- How they interact: the client's slot_send_data feeds the session's reads, whose messages go to the
-- logic queue; the handlers there call the DAO, and answer through the session's send queue. The gate
-- server checks a password against the table of users, asks the status server for a token, which goes
-- to Redis, and the session server takes the token from there. Verification codes go the same way
-- from the verify server to the gate. The upload handler's file goes over UploadAudio to the storage
-- server.
--
-- Choices
--   - A table is a list of rows in the order of insertion; a query that takes the first row takes the
--     first in that order. Constraints are those the schema declares; texts have no length limit. A
--     multi-row statement is one step. Methods are not interleaved with each other.
--   - A statement may fail with any error code before it has an effect. A rollback succeeds, or the
--     server drops the broken connection and with it the transaction.
--   - The numbers of a position and of an id have no upper bound.
--   - `async_read_len` and `receive` run on fuel: a read gives a byte or more, so the number of bytes
--     wanted is enough, and one round for each message. The results about them say so.
--   - The client's `QDataStream` reads two bytes, the higher first, where they are there. `read_loop` runs on
--     fuel: every round but the first takes four bytes or more, so the size of the buffer is enough.
--     `run_check` runs on fuel too: two steps for each connection and three more.
--   - Redis is a record of operations with the laws that a value that is set is there, that a deleted one
--     is not, that other keys are left alone, and that a time to live is kept; `replies` says
--     whether a command gets its reply. Its keys are prefix and uid or address. One lock key is modelled as its value and the seconds left; a round of
--     acquireLock is one command with what happens to the key behind it, so the rounds are its fuel.
--   - Parameters: the stored procedure reg_user, the Base64 decoder, the JSON of a cached user, new
--     codes, tokens and identifiers.
--     The gate's calls of the verify and the status server arrive; FastDFS stores what the callback
--     writes, and its socket takes every write.
--   - On_Timer is one firing: closing the sockets and arming the timer again are left out. The flag and the
--     clearing of BlockQueue's Close are one step.
--   - An answer is the JSON value that its handler builds. `toStyledString` and Qt's reader are parameters: a
--     value whose numbers are `int`, whose texts are UTF-8 and whose keys are different is read as it was
--     printed. The client's handlers run one behind the other on one thread.
--   - A request is the record of the JSON fields that its handler reads, of their expected types.
--   - A join gives its rows in the order of its first table's rows, where the query asks for no order; a
--     playlist's time of creation is a parameter. `getString` of NULL is the empty text.
--   - The lock of a login, of the end of a session and of a count is taken and given back within one step.
--   - The id of a session is new when it is accepted. A second login over one session is not excluded by the
--     code; Registry/Bound speaks of a session between its login and the next one over it.
--   - A LOG(FATAL) ends the process, which a handler's model shows as `none`.
--   - The frames are read for a session that the server holds (CheckVaild) and that is not closed.
--
-- Not modelled: the user interface of the client but for the heartbeat, its playback and audio effects (Qt
-- widgets, FFmpeg and floating-point signals), its AI chat and local tools, generated protocol code, the
-- reading of requests by Boost.Beast and the start-up of the servers,
-- gRPC, the servers of Redis, FastDFS and MySQL, mail, logging, configuration, the
-- pools of gRPC stubs and Redis connections.
pub mod Base
pub mod Sql
pub mod Dao
pub mod Redis
pub mod Account
pub mod Status
pub mod Storage
pub mod Logic
pub mod Registry
pub mod Uploads
pub mod ImgFmt
pub mod Wire
pub mod Url
pub mod Client
pub mod MysqlPool
pub mod Dispatch
pub mod Base64
pub mod Json
pub mod BlockQueue
pub mod Tests
