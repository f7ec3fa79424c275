-- ===== src/Lib.antt =====
-- TicketIST, the server that sells, resells and checks tickets of events.
--
-- A client or a validator sends a line of text over TLS; `Controller::messageHandler` finds out its
-- action, reads the message, checks the session of the sender, calls a service, and answers with
-- another line. The services keep users, events and tickets in a MySQL database through the
-- repositories. Codes and texts of tickets are stored as SHA-256 hashes only.
--
-- Files, and what they model (paths from the root of the repository):
--   Prelude, Text    texts as lists of bytes, `std::stoi`, `std::stol`, `std::getline`, the printing of
--                    integers, `std::map`, exceptions (Result), and calls over a state (Action)
--   Floats, Platform the parameters: `double`, the database server, the digest of OpenSSL; over them
--                    `computeSHA256` of common/src/Crypto/CryptographicLibrary.cpp
--   Message          common/src/Message: a record, `serialize` and `deserialize` for each class;
--                    Message.Action is `enum class ActionType`
--   Ticket           common/src/Ticket, and the cookies of common/src/Message/AuthenticatedMessage.cpp
--   Database         db/*.sql as rows (Database.Schema), what each statement of the repositories means
--                    for them, and what is known of the server (Database.Laws)
--   Repository       common/src/Repositories: TicketRepository, UserRepository, EventRepository, and in
--                    Repository.Tickets.Answers what the methods return on a reliable server
--   Service          common/src/Services: TicketService (`buyTicket`, `validateTicket`,
--                    `checkIntegrity`, `sellTicket`), UserService, EventService; the theorems on tickets
--                    are in the children of Service.Tickets; Service.Tickets.Race takes `buyTicket` apart
--                    into its calls of the repository, for purchases on several threads
--   Controller       common/src/Controller/Controller.cpp: sessions, replies, one handler for each
--                    message, and the dispatch (Controller.Dispatch)
--   Communication    the firewall of common/src/Communication/Firewall.cpp; of
--                    common/src/Communication/TLSServer.cpp its rules, the checks before a connection
--                    is taken, the loop over the messages of one connection (Connection), and the
--                    connections side by side as a step relation over who is connected (Threads);
--                    the sending and receiving of common/src/Communication/TLSClient.cpp (Receive), and
--                    how its client is made, connected and destroyed (Sockets); the start of the
--                    server with `main` of Server.cpp (Start)
--   Crypto           common/src/Crypto: CryptographicLibrary, KeyGenerator (Crypto.Keys,
--                    Crypto.KeyPair) and TicketEncryption (Crypto.Tickets), over
--                    OpenSSL's calls as a parameter
--   Client           Client.cpp: its session and what it makes of replies (Client, Client.Sync,
--                    Client.LogIn); the state that its dialogues work on (Client.Desk), the questions
--                    and keys (Client.Ask), the ticket files (Client.Wallet), signing up and logging in
--                    (Client.Entry), the menu and the loop of `main` (Client.Menu), and `main`
--                    from its arguments on (Client.Program)
--   Validator        Validator.cpp: the log-in, and the menu with its replies (Validator.Menu)
--   Tests            a server in memory, a sample shop, and the theorems at it
--
-- A name in camel case stands here in snake case: `buyTicket` is `buy_ticket`. A member function is a
-- function of the object's state that returns its result with the new state; a thrown exception is the
-- result `throw e`, and what was done before it stays done. The services share one connection, as they
-- do in the program (`Repository::conn`).
--
-- The database is a parameter (Database.Sql): a connection with the tables behind it, and two
-- functions that run a query and a statement. By SqlLaws a query changes nothing and throws or
-- answers by the tables, and a statement throws and changes nothing or has its meaning: statements
-- are atomic. IsReliable adds that only a key that is taken makes a statement throw: no connection is
-- lost, and every text fits its column. Texts of a column are compared by the collation of the table,
-- also a parameter. The theorems say which of the two they need; those on requests and sessions need
-- neither.
--
-- Bounds. Integers are exact; `int` and `long` are tested where the program reads them (`stoi`, `stol`
-- throw outside), so the counting of nonces and ids past the largest `long` is not modelled. A price is
-- a double that is not subnormal, given by what the program does with it; FloatLaws states what six
-- printed digits give. Printing an integer runs on a fuel of one more than the number, of which it
-- needs its digits. The time, the draws of the generators and new nonces are inputs, and so they hold
-- whatever they are.
--
-- A dialogue of the client or the validator is a function of a desk (Client.Desk.Desk): the globals, the
-- files by their paths, what is still to be read from `std::cin` with its flags, what was printed, what
-- was sent, and the replies that will come. It ends with a value, an exception or the end of the
-- program. A loop is cut off after a number of rounds that is a parameter, and is then `running`; so is
-- a wait for a reply that does not come. Client.Menu.Ends shows how many rounds are enough for the
-- questions. A path is taken as the name of one file, so links and `..` are not looked through.
--
-- The cipher, the derivation of keys, `std::hash`, the rights in the file system, random bytes, and the
-- values of variables that are not initialised are parameters; CipherLaws states that a cipher decrypts
-- what it encrypted.
--
-- The source guards neither the controller nor the database against its own threads. So a step of the
-- server (Threads) may leave the controller in any state, and the theorems on the services, the
-- controller and one connection are about calls that nothing else comes between. Purchases are also
-- modelled as threads that take turns between two statements of the database (Service.Tickets.Race);
-- Race.Alone shows that a thread which takes every turn does what `buy_ticket` does. The other
-- operations, and two calls inside the connector at once, are not modelled in this way.
--
-- The calls of OpenSSL and of the sockets that set a connection up enter as whether they succeed, and
-- what the process holds open is counted (Sockets, Start).
--
-- Not modelled: the handlers of SIGINT, prompts of the terminal, the classes BuyerSeller, Manager and
-- Validator, which nothing uses, `main` of GenerateServerKeys.cpp, which returns at once, and the lines
-- that the server writes to its terminal. The texts of exceptions that the standard library throws are
-- those of libstdc++.
pub mod Prelude
pub mod Text
pub mod Floats
pub mod Message
pub mod Ticket
pub mod Crypto
pub mod Database
pub mod Platform
pub mod Repository
pub mod Service
pub mod Controller
pub mod Communication
pub mod Client
pub mod Validator
pub mod Tests
