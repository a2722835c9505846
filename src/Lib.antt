-- ===== src/Lib.antt =====
-- AVME wallet: the parts of the C++ code that compute, over parameters for the libraries it calls.
--
-- The program is a desktop wallet. src/core keeps accounts, tokens, contacts and the history of
-- transactions in LevelDB databases, the seed encrypted in a file, and converts amounts, addresses and
-- bytes; src/network asks nodes and contracts, computes amounts of an exchange and serves web sites over
-- sockets; src/lib/ledger talks to a hardware device; src/qmlwrap hands all of it to the screens, and
-- answers the requests of the web sites.
--
-- Base: numbers, tests, lists, texts and the failure monad. A std::string is the list of its bytes.
--   `none` is a C++ exception that leaves the function, or undefined behaviour; each definition says
--   which where it matters.
-- Utils: src/core/Utils.cpp. Utils/Amounts is weiToFixedPoint and fixedPointToWei, Utils/Case the case
--   of addresses and isHex, Utils/Hex uintToHex, addressToHex and their inverses, Utils/Bytes
--   hexToString, bytesToHex and bytesFromHex, Utils/Rounding roundUp. Utils/Casts has boost's
--   conversions and Utils/Json nlohmann's json as parameters, with the laws that are relied on.
-- Pangolin: src/network/Pangolin.cpp, with numbers of 256 bits that wrap around.
-- Ledger: src/lib/ledger. Ledger/Path is parsePath, Ledger/Chunks the cutting of what is signed into
--   payloads, Ledger/Frames the HID frames and how they are read, Ledger/Messages the requests and answers, and
--   Ledger/Device the device of ledger.cpp over its communication and over ethcore. Ledger/Comms is
--   comms.cpp over hidapi, which fills that communication.
-- Database: src/core/Database.cpp. Database/Operations has what the six groups of functions share, and
--   Database/Token, History, Ledger, App, Address and Config are the groups. LevelDB is a parameter,
--   with its laws in Database/Laws; a pointer that is not NULL is the path of an open database.
-- Wallet: src/core/Wallet.cpp. Wallet/Tokens, Wallet/Stores and Wallet/History are the functions over
--   the databases, Wallet/Accounts the accounts over the key manager, Wallet/Passwords the stored
--   password with its threads as interleaved steps, Wallet/Sending building, signing and sending over
--   the node and ethcore, and Wallet/Login creating, loading and closing a wallet with the test of a
--   password.
-- Api: src/network/API.cpp, requests to a node, the loops that clean their texts, the readers of the
--   answers and the two hosts. The node and nlohmann's printer and parser are a parameter; Utils/Json/Tree
--   has the nested values.
-- RequestList: src/qmlwrap/QmlApi.cpp, the requests that wait under an identifier. RequestList/Calls has
--   the calls that the screens make, and the specification as a function from identifiers to batches.
-- Server: src/network/Server.cpp, a session with its lock and its asynchronous operations as steps, and
--   the listener. A pending operation is one whose handler was not called yet.
-- Sites: src/qmlwrap/QmlServer.cpp. Sites is the list of permissions and its text in the settings,
--   Sites/Requests what a request of a web site is about, Sites/Handler handleServer. The user's answers
--   are given; the result is what is shown and sent, in order, and how the thread ends.
-- Transfers: src/qmlwrap/QmlSend.cpp, makeTransaction with the signals that it emits, in order.
-- Costs: src/qmlwrap/QmlSend.cpp, the greatest amount, the cost of a transaction and the test for funds.
-- Seeds: src/core/BIP39.cpp, the encrypted mnemonic, with readJSONFile and writeJSONFile of
--   src/core/Utils.cpp. The cipher and the files are parameters.
-- LastUsed: src/qmlwrap/QmlSystem.cpp, the files lastWallet.json and lastAccount.json, whose values are
--   nested. LastUsed/JsonFiles reads and writes them, LastUsed/Entries has their entries as records.
-- Abi: src/core/ABI.cpp, calls of contracts out of JSON. Abi/Layout has arguments whose values are one
--   word each, and arrays of them; Abi/Places finds them in the text.
-- Settings: src/qmlwrap/QmlSystem.cpp, loadConfigDB, setWalletAPI and setWebSocketAPI with the server's
--   start and stop: load_settings, set_wallet_api and set_web_socket over the databases and the hosts.
--   Settings/Restart has sequences of changes and of starts of the program.
-- Staking: src/network/Staking.cpp, the data of its transactions and what is read of the contracts.
-- Tests: concrete parameters, and the theorems at concrete inputs.
--
-- Fuel: Ledger/Chunks cuts a message of n bytes in at most n rounds, since each round takes a byte; for
--   the personal message, whose rounds can repeat the path, it is the same bound. Utils/Bytes pads to a
--   word in at most 64 rounds. Api cleans a text with as many rounds as it has bytes, since each round
--   takes a byte away. The timed reads of Ledger/Comms need a round more than the packets that come before
--   a read gives nothing; without such a read they do not end, and neither does a hid_read that no packet
--   comes for.
--
-- Not modelled: the HTTP exchange, the ciphers themselves, the threads that run the server, and Qt.
-- Integers of the JSON objects that the wallet stores are natural numbers. An int's overflow in roundUp
-- and numbers with a fraction in jsonToStr are left out.
pub mod Base
pub mod Utils
pub mod Pangolin
pub mod Database
pub mod Ledger
pub mod Wallet
pub mod Server
pub mod Api
pub mod Tests
pub mod RequestList
pub mod Settings
pub mod Sites
pub mod Costs
pub mod Seeds
pub mod Transfers
pub mod LastUsed
pub mod Abi
pub mod Staking
