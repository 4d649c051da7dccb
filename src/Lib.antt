-- ===== src/Lib.antt =====
-- A model of the core of aMule Remote: the client that controls an aMule daemon over the External
-- Connection (EC) protocol.
--
-- The program's parts. core/ec/codec.cpp turns packets (an opcode and nested, typed tags,
-- core/ec/tag.h and core/ec/packet.h, with the codes of core/ec/codes.h) into bytes and back.
-- core/ec/client.cpp sends them in frames over a socket and authenticates. core/ec/queries.cpp
-- builds the requests and reads the replies into the domain model of core/model/model.h.
-- core/ec/worker.cpp owns the client on a thread of its own: its slots are called by the user
-- interface and by a timer, and it answers with signals. The user interface is under app/.
--
-- The files and the code that they follow.
--   Base, Base/*: shared names, tests on numbers, lists measured by native numbers.
--   Codes/*: the constants of core/ec/codes.h, a module for each enumeration.
--   Ec/Bytes: byte arrays, texts, appendBE and qFromBigEndian, and the parameter Qt. Ec/Tag and
--     Ec/Packet: Tag and Packet with their accessors. Ec/Outcome: EcError, std::expected.
--   Ec/Codec/Encode: encodeInt, encodeValue, tagLen, writeTag, Packet::encode. Ec/Codec/Decode:
--     Cursor, decodeValue, readTag, Packet::decodePayload. The other files of Ec/Codec hold proofs.
--   Ec/Client/Socket: the parameter for QTcpSocket. Ec/Client/Frames: exchange, request, readPacket,
--     readExactly. Ec/Client/Password: the password hashes. Ec/Client/Handshake: connect,
--     connectWithMd5, authenticate.
--   Model/*: the structs of core/model/model.h with their members' initial values, and of
--     core/model/model.cpp ipString and Server::address (Address), the labels (Labels), and
--     humanBytes, humanRate, humanCount and humanSizePair (Figures), where a double is the whole
--     number that the cast rounds to.
--   Queries/Requests: the commands. Queries/Reads and Queries/Fetches: fetchStats, fetchDownloads,
--     fetchConnState, fetchServers, fetchSharedFiles, fetchSearchResults, fetchSearchProgress.
--     Queries/ReadPrefs and Queries/WritePrefs: fetchPrefs and setPrefs. Queries/Sources:
--     mergeClient and fetchClientUpdate.
--   Worker/State: EcWorker's members and signals. Worker/Commands and Worker/Slots: its slots, and
--     `run`, which takes a history of all of them but shutdown, the last call of the thread. The
--     other files of Worker hold proofs.
--   App/SearchFilter: globToRegex, setSearchFilter, setAnchored, lessThan and filterAcceptsRow of
--     app/searchfilterproxy.cpp. App/Tables: the row updates of the five table models under app/, and
--     in App/Tables/Cells their cells and headers.
--     App/Transfers: the downloads on screen and the finished ones retained in app/mainwindow.cpp.
--     App/SavedSearches: the file of app/savedsearches.cpp. App/SpeedGraph: the samples of
--     app/speedgraph.cpp. The files below these hold proofs.
--   App/SearchPanel: app/searchpanel.h and app/searchpanel.cpp. SearchPanel/Tabs: makeResultTab,
--     onTabClose, onCurrentTabChanged, setResults, updateAnchor, updateDownloadEnabled. Downloads:
--     onDownload, onResultContextMenu. Choices: the filter's controls and the list of saved
--     searches. Slots: onSearch, onSaveSearch, onLoadSaved, onDeleteSaved, the constructor. Events:
--     the connections of buildControls and makeResultTab, as steps. The others hold proofs.
--   App/Widgets: what a spin box and a combo box show. App/PreferencesPanel: the bindings of
--     app/preferencespanel.cpp, with setPrefs and collect in Form.
--   App/MainWindow: app/mainwindow.h and app/mainwindow.cpp. Connection: loadSettings,
--     saveSettings, onConnectClicked. Signals: the slots that wireWorker connects to the worker's
--     signals. Actions: the menus, buttons and dialogs, app/addserverdialog.cpp's answer included,
--     and the slots of the worker that they queue. Inputs: all that the user can do. Start:
--     the constructor. The others hold proofs.
--   App/System: the window and the worker on their threads, with the two queues between them.
--   Examples/*: the theorems at concrete inputs.
--
-- State and failure. A call on the client is a function from the client's state to an outcome and
-- the next state; a `std::unexpected` is an `err`, and a thrown DecodeError an `err` of the decoder.
-- The worker's signals are a list in its state, oldest first, and the clock that the search's timer
-- reads is an argument of the slot. Slots run one after the other, as on the worker's thread.
-- The window posts slots to a queue that the worker takes from the front, and takes the worker's
-- signals in order; App/System steps either side in any order. A dialog or a menu is an event that
-- carries the user's answer, the menu of a search result also the results that arrive while it is
-- open (any results, in App/System); whether QSaveFile could be opened is a Bool of the event that
-- writes the file. The selection of a table is an event that carries its rows; a result's view is
-- named by a number, since its address only serves comparisons.
-- Unsigned integers are natural numbers with the wrap-around written out where the code casts or
-- adds; a `double` is its 64-bit pattern, and is only stored, compared and converted by parameters.
--
-- Fuel. The decoder's fuel bounds the depth of nested tags and starts above the payload's length;
-- each level takes seven bytes. The fuel of the frames bounds the rounds of a loop on the socket;
-- with the bytes still to come each round reads one at least, so more fuel than bytes is enough. A
-- loop that never ends in the program ends in `out_of_fuel` here, a value of its own.
--
-- Parameters. Qt's text conversions, number formats, MD5 digest and hexadecimal digits (Qt), the
-- socket (Socket, with IsDelivering for a peer whose bytes arrive in time, and IsSending for one that
-- takes in time what is sent), and for the worker the
-- client's calls, the order of an unordered map and the comparison of doubles (Daemon); the
-- matching of texts and expressions (Matching); UTF-8, trimming and numbers of the saved searches
-- (Format); the digits of a double (Figures); QString::arg and tr (Toolkit, Desktop, Screen); the
-- tab that QTabWidget chooses after one is closed; and QSortFilterProxyModel's comparison of two
-- rows.
--
-- Not modelled: how widgets are made, laid out and painted, the menu bar, window geometry and the
-- banner of the graph, the box with a result's details, the catalogues of translations, the graph's
-- file (QDataStream), the worker's thread and its metatypes, the signals of the worker that the loop
-- of a dialog takes (they stand before or after it), and the memory that deep nesting takes on the
-- stack of readTag.
pub mod App
pub mod Base
pub mod Codes
pub mod Ec
pub mod Examples
pub mod Model
pub mod Queries
pub mod Worker
