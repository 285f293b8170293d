-- ===== src/Lib.antt =====
-- The messages, snapshots, channel, connections, console, master server, user info strings and
-- wildcard patterns of Quake2World.
--
-- The program is a client, a server and a master server that talk in datagrams. A message is
-- bytes in a buffer with a limit (src/mem_buf.c), filled and read by the primitives of
-- src/net_message.c, which also compress user commands and entities to the fields that changed. A
-- channel (src/net_chan.c) numbers the datagrams and carries one reliable message beside the
-- unreliable ones. Snapshots (src/server/sv_entity.c to src/client/cl_entity.c) use the
-- primitives to send the state of a player and the entities it sees, as changes to an older frame
-- that both sides keep. The master server (src/master/main.c) keeps the list of game servers by
-- heartbeats and pings and answers queries. A server lets a client in that answers with the
-- challenge it was sent (src/server/sv_main.c). Settings of a player travel as a string of keys
-- and values, and names of files and commands are matched against patterns with wildcards (both
-- src/shared.c). The console (src/cmd.c, src/cvar.c) runs lines of text from a buffer as
-- commands, and keeps the variables that the other parts are set up by, which it writes as such
-- lines for the next run.
--
-- Files:
-- Prelude: shared names and lemmas, on Booleans, lists (Prelude/Lists) and sums of bits
-- (Prelude/Bits).
-- MemBuf: mem_buf_t and the Mem_*Buffer functions, an abort being none. MemBuf/Valid has the
-- invariant, MemBuf/Spec the log with a limit.
-- Message: Message/Write and Message/Read have Net_Write* and Net_Read* as writers and readers of
-- a buffer, with rules for what they append and consume; Message/RoundTrip composes them, and
-- Message/Cursor is about how far a reader moves. Message/Strings, Message/UserCmd,
-- Message/Vector and Message/Entity are strings, user_cmd_t, the vectors, and entity_state_t.
-- Snapshot: Snapshot/PlayerState has Sv_WritePlayerstate and Cl_ParsePlayerstate, Snapshot/Emit
-- Sv_EmitEntities and Sv_WriteFrame, and Snapshot/Parse Cl_ParseDeltaEntity and Cl_ParseEntities.
-- Snapshot/Backup is about the ring of frames, Snapshot/Parse/Ring about the ring of entity
-- states, Snapshot/Parse/Fuel about the end of its loops, Snapshot/Parse/Removal about a message
-- that the parse does not refuse. Snapshot/Transfer follows the entities of a frame from one side
-- to the other: Transfer/Bytes is what is written, Transfer/Places where the parse is in both
-- rings, Transfer/Turns, Transfer/Items, Transfer/Lists and Transfer/Steps are about one turn of
-- its loop, and Transfer/RoundTrips puts them together. Snapshot/Frame is Cl_ParseFrame, with the
-- checks of the old frame, and Frame/Known and Frame/Delivery follow a whole frame from
-- Sv_WriteFrame to it.
-- Channel: net_chan_t and the Netchan_* functions; Channel/Packet has the bytes of a datagram,
-- Channel/Invariant what the functions keep, Channel/Sequence what the receiver accepts.
-- Channel/Network is two channels and the datagrams between them, with a step relation for what
-- each side and the network may do; Network/Invariant is what every run keeps, Network/Staging,
-- Network/SendsA and Network/Sends that a send does, Network/Taking and Network/Receives that a
-- receipt does, Network/Delivery and Network/Progress what follows.
-- Master: ms_server_t, the list, Ms_ParseMessage and Ms_Frame; Master/Registry, Master/Listing
-- and Master/Walk are about its invariant, its reply and its frames, one after the other.
-- UserInfo: GetUserInfo, DeleteUserInfo, ValidateUserInfo and SetUserInfo; UserInfo/Pairs has the
-- list of pairs that such a string stands for.
-- Connections: Svc_GetChallenge and Svc_Connect (src/server/sv_main.c), which lets a client in
-- that answers with the challenge it was sent. Connections/Granted is about the two together,
-- Connections/Oldest about the entry that is overwritten, Connections/Slots about the choice of a
-- slot. Connections/Requests adds the tests of the user info, so it is Svc_Connect up to the call
-- of the game, and Requests/RealAddress is about the address the game is told.
-- Glob: GlobMatch and GlobMatchStar. Glob/Sets has the relation of a set and a character,
-- Glob/Matching that of a pattern and a text; Glob/Scans is about how far a set is read,
-- Glob/SetItems, Glob/Skipping and Glob/SetScans about its ranges, its rest and what it takes,
-- Glob/Stars and Glob/Decides about the answer, Glob/Escapes about backslashes.
-- Console: ParseToken (src/shared.c) and Cmd_TokenizeString in Console/Tokens, whose Printing and
-- RoundTrip are about a printed line, Sizes and Bounds about any text; the Cbuf_* functions and
-- Cmd_ExecuteString in Console/Buffer, whose Lines is about the order of the lines and Aliases
-- about an alias that runs itself. Console/Table is the table of commands, and Table/Listing
-- about what Cmd_Enumerate finds in it. Console/Variables is cvar_t and Cvar_Get, and
-- Variables/Change the operations that change a variable; Variables/Lookup, Order and Strict are
-- about the list as a table and its order, Variables/Steps about any sequence of calls,
-- Variables/Setting about one, Variables/NextString and Latching about strings held back for the
-- next game. Console/Config has the commands on variables and Cvar_WriteAll, and with
-- Config/Lines and Config/Restore joins the parts.
--
-- Numbers: a signed field holds the bits of its type as a natural number below 2 ^ w, so writing
-- is the number modulo 256 of each byte and reading is the inverse or, where the source keeps a
-- wider signed type, the sign extended to 32 bits. A long is 32 bits, a size 64 bits.
--
-- Fuel: Net_ReadString and Net_ReadStringLine loop on the room left of MAX_STRING_CHARS, as the
-- source does. The loops over a user info string have one more unit of fuel than the string has
-- bytes, and each turn takes a byte at least. The loop of Sv_EmitEntities has a unit of fuel for
-- each entity of both frames. The loop of Cl_ParseEntities has one more than the message has
-- bytes, and its inner loop one for each entity of the old frame; a loop that used up its fuel
-- would be an outcome of its own. GlobMatch has one more than the pattern has characters, since
-- each call is on a rest of the pattern, and the loop over a set two more. Cmd_TokenizeString has
-- one more than MAX_STRING_TOKENS. Cbuf_Execute is given fuel for its loop by the caller, since
-- an alias may go on for long, and a loop that used it up is an outcome of its own.
--
-- Parameters: floating-point conversion to the wire and back (Message/Vector) with the grids on
-- which it is exact, the test of the master's blacklist, the search for a text that GLib's or
-- libc's functions do, the clock, the random number of a challenge, and the text of an address;
-- the functions of the commands, the command that goes to a server, and what atof makes of a
-- string. The network between two channels is a relation that may do anything to datagrams but
-- make them up, and a session of it has fewer than 2 ^ 31 - 1 packets from each side, so no
-- sequence wraps.
--
-- Not modelled: the time of a frame and the prediction of the client, what a change of the game
-- directory loads and runs in the middle of Cvar_UpdateLatched, the game's part in Svc_Connect,
-- and the visibility of entities, sockets, files, threads, the console's window and the clock,
-- which are I/O; the game, the renderer, the sound and the map compiler, which are floating-point
-- geometry; the copies of other libraries under deps.
pub mod Prelude
pub mod MemBuf
pub mod Message
pub mod Snapshot
pub mod Channel
pub mod Master
pub mod UserInfo
pub mod Glob
pub mod Connections
pub mod Console
