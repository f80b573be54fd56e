-- ===== src/Lib.antt =====
-- qt-chat-app: a chat server and a client over TCP, written with Qt. This library models the wire
-- format that the two share, the server's sessions, handlers, routing of messages and database, and
-- the client's account, requests, replies, known users, chats and connection.
--
-- The parts and their files:
-- - Prelude: the library names that all modules use, Boolean tests, lists over the native ℕ.
-- - Qt: what the program asks of Qt. A QUuid is the number that its 128 bits stand for, a QByteArray
--   the list of its bytes (a char is 0 to 255 here), a QString a text, a QDateTime a number of
--   milliseconds, which Qt::ISODate writes as whole seconds. Qt's functions are a parameter `Qt`,
--   and `QtLaws` is what its documentation says of them: each encoding has its decoding.
--   Qt.JsonValue has the JSON values that the program builds and reads; an object is a list of keys
--   and values without the order that Qt gives them.
-- - Shared.Packet: shared/src/Packet (Packet::serialize, Packet::deserialize). The enum is cast from
--   a byte, so that its model has a constructor for the values that no enumerator names.
-- - Shared.Stream: shared/src/util.cpp (parseStream, parse, encapsulate). The loop of parseStream is
--   `scan_loop`, by recursion on the bytes that are left, with the loop's variables as a record.
-- - Shared.Username: shared/src/util.cpp (isValidUsername, normalizeUsername). The regular expression
--   is a scan that counts up to 20 characters; `$` also matches in front of a last newline.
-- - Shared.Payload: shared/src/dto, shared/src/Message and shared/src/OperationResult, each with its
--   serialize and deserialize. Shared.PacketFactory: shared/src/PacketFactory.
-- - Model: server/src/model (User, Chat, ChatMember, Content, DbMessage, UserStats).
-- - Server.Session: server/src/ClientConnection and the table m_clients of server/src/Server. A
--   socket is a number, 0 for the null pointer. The QHash is a list; its order stands for the order
--   of iteration, which Qt does not promise.
-- - Server.Storage: what the handlers ask of server/src/Database, as a record of operations on a
--   state; the handlers take it as a parameter.
-- - Server.Core: the state that the handlers share (m_uuid, m_clients, the database's state, and all
--   that was written to sockets) and the functions that send. Server.Auth, Server.Profile,
--   Server.Chats, Server.Routing: the handlers of server/src/Server.cpp, each as a function from the
--   state, the socket and the packet to the state. A UUID that QUuid::createUuid makes and the time
--   are arguments.
-- - Server.Reading: onNewConnection, onServerRead and onClientDisconnected, with m_socketBuffers.
--   Server.Reading.Written and Server.Reading.Answers: what is written to one socket.
--   Server.Sessions: the invariant of the sessions, and that any events keep it.
-- - Database: server/src/Database.cpp. Database.Sql has its SQL statements as values, and the engine
--   that executes them (QSqlDatabase, QSqlQuery, QVariant and PostgreSQL) as a parameter; SELECT
--   gives rows and changes nothing, any other statement gives a new state. Database.Users, Contents,
--   Chats, Messages, Stats, Usernames and Profile have the operations, and Migrations has connect and
--   init, which takes the files of the directory and their texts as arguments. Database.Laws says
--   what PostgreSQL documents of transactions and of reading back a row, for the columns of type
--   UUID, TEXT and FLOAT; nothing is assumed of timestamps. Database.Migrations.Laws says
--   what init needs of the texts of migrations/, none of which names schema_migrations or ends a
--   transaction. Database.Handlers fills the interface Server.Storage with these operations.
-- - Client.UserResolver: client/src/UserResolver, with its QHash and QSet fields as lists
--   (Client.Hash) and the requests that it sends as values. Client.RequestManager:
--   client/src/RequestManager, with the signals that it emits and the bytes that it sends as values.
--   Client.AccountManager: client/src/AccountManager, with what it asks the server for as values;
--   Client.Hasher: client/src/Hasher. Client.ChatMessage: client/src/ChatMessage.
--   Client.Chat: client/src/Chat; Client.Chat.Sender: client/src/MessageSender, whose thread is the
--   step `process_message` on the queue of outgoing messages. Client.ChatManager:
--   client/src/ChatManager, the order of the chats and the table of them. Client.ChatCreator:
--   client/src/ChatCreator, with the member that is waited for. Client.Connection: client/src/Client,
--   with the calls on QTcpSocket as values. A pointer to a chat, a message or a member is its id in
--   all of these.
-- - Exchange: a message from the client that sends it through the server to those that receive it,
--   and a login (Exchange.Login), the server's two answers to it (Exchange.Answers) and
--   what the client makes of them (Exchange.Heard).
-- - Tests: a concrete Qt and small tables in memory at which the laws hold, and each theorem at an
--   input.
--
-- How they interact: onServerRead appends what a socket gives to its buffer, parseStream takes the
-- complete packets off, and each is dispatched on its type to a handler, which reads the payload with
-- a deserialize function, asks the database, changes the sessions, and writes replies that
-- PacketFactory builds and encapsulate frames.
--
-- Loops are structural recursion on lists, so that there is no fuel and no bound. The logs, the
-- singletons, signals and deleteLater are not modelled, since no result depends on them; what
-- QTcpSocket::write returns is only logged by the source, and every write stands in `written`. The
-- address and the password of the database, which connect takes from the environment, stand behind
-- the engine. The user interface (QML, the item models' roles and the signals that only it hears),
-- the busy loop in which the sender's thread waits for a connection, the console and the start-up
-- of the server are not modelled.
pub mod Prelude
pub mod Qt
pub mod Shared
pub mod Model
pub mod Server
pub mod Database
pub mod Client
pub mod Exchange
pub mod Tests
