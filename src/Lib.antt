-- ===== src/Lib.antt =====
-- QpidR watches message brokers, and recreates on a backup what a failed broker held.
--
-- A requestor (src/requestor.cpp) announces a service to proposers (src/proposer.cpp) and acceptors
-- (src/acceptor.cpp). The proposers watch the heartbeats of the broker. When one of them misses
-- them, it proposes a recovery to the acceptors by Paxos; the proposer that commits its proposal
-- copies the objects of the failed broker to the backup. A change of the acceptors is committed in
-- the same way. The listener of a recovery manager hears of links that went down, and the manager
-- then reroutes them to the backup of their destination.
--
-- Parts, and the files that model them:
-- - Base, Text: numbers, lists, machine integers, C strings. A string is the list of its bytes in
--   front of the NUL.
-- - Paxos.Proposal: include/paxos.h and src/paxos/paxosproposal.cpp, the proposals and
--   Proposal::compare. A score is an unsigned; getValue returns it as an int.
-- - Paxos.Message: PaxosMessage, the states and the results of include/paxos.h. A handler lists the
--   writes and the calls of the file selector that it makes as effects, in the order of the source.
-- - Paxos.Acceptor, Paxos.Proposer: AcceptorStateMachine and ProposerStateMachine of
--   src/paxos/paxos.cpp, one function per method, with its name. `run` is a history of messages
--   and timeout checks. Paxos.Agreement puts two proposers and their acceptors together, and
--   Paxos.Ballot a proposer and the acceptors that answer it.
-- - Paxos.Wire: sendProposal, receiveProposal, sendHeaderProposal and PaxosMessage::receive on
--   streams of bytes, for a little-endian machine.
-- - Acceptors: createAcceptor, handlePaxosMessage and the loop of src/acceptor.cpp. Its child Hosted
--   has what one request makes in several processes.
-- - Common: the messages of include/common.h between the programs.
-- - Heartbeat: HeartbeatClient of src/heartbeat/heartbeat_lib.cpp, and src/heartbeat_server.cpp.
-- - Services: src/proposer.cpp. The file itself has Monitored, handleCommit, startRecovery and
--   handlePaxosMessage; its children Create and Lists have createProposer, receiveHeartbeat and the
--   lists of proposers, Host and Loop the state of `main` and one turn of its loop, and Start what
--   `main` does before it. Services.Ballot puts the services together with the acceptors that answer
--   them: `failover` is startRecovery and two rounds of messages, in which what the services send
--   reaches the acceptors behind open sockets, and each answer is one call of handlePaxosMessage.
-- - Requestor: src/requestor.cpp. The file itself has the requests and the heartbeat clients, its
--   children Commit and Loop have handleCommit, and what `main` does before and in its loop.
--   Arguments has readArguments, and what `main` does with it.
-- - Qpidconf: src/extra/qpidconf.cpp, the commands of the configuration program.
-- - Names: VectorAndIndex and readNameList of src/setting/namelist.cpp.
-- - Sockets: src/common/socketlib.cpp, acceptRead of include/common.h, checkFailure of
--   src/setting/namelist.cpp and sendCopyMessageRequest of src/proposer.cpp.
-- - MessageCopy: src/messagecopy.cpp, and the server of src/messagecopy_server.cpp.
-- - LinkDst: LinkDstListener of src/proposer_link.cpp.
-- - FileSelector: src/common/fileselector.cpp.
-- - Address: src/recovery/brokeraddress.cpp, and the urls of src/recovery/brokerobject.cpp.
-- - Broker: src/recovery/brokerobject.cpp: the object types, the classes of objects, and the method
--   calls that recreate them.
-- - Recovery: src/recovery/recoverymanager.cpp and src/recovery/listener.cpp: what is recorded of the
--   brokers, the copy of a failed broker, the known brokers and the rerouting. A cast of an object to
--   another subclass than its own is a fault; Brokers.Tagged has the types of the waiting events.
--   The events that copyObjects sends for links to hosts that are down wait in the pipe of the manager
--   when the call returns.
--
-- Parameters. The time that getSecond returns is a number of microseconds, given to each call.
-- Descriptors that tcpconnect returns, what select reports, the objects that a broker shows, and
-- the hosts that cannot be reached are arguments, as are the contents of files and the numbers that
-- sscanf reads. ObjectId of the broker library is a type with its operator==; where a theorem needs
-- that this operator decides equality, it is a hypothesis.
--
-- Bounds. `unsigned` wraps at 2 ^ 32, where the code computes with it. Printing an unsigned has fuel
-- for ten digits, and 2 ^ 32 - 1 has ten. The loop over expired heartbeat clients has fuel for one
-- round more than there are clients, and each round but the last deletes one; the loop over the urls
-- of the subnet has it for one round more than there are urls. A null pointer or an
-- access outside an array that the code would run into is `none`, and `crashed` in the loop of
-- src/requestor.cpp. So a request that counts more than MAX_ACCEPTORS acceptors is `none` in
-- createProposer and createAcceptor, as is such a change of them in handleCommit of src/proposer.cpp,
-- and a list of more than MAX_PROPOSERS proposers in listenAddressChange; the requestor program has
-- no such number, since its arguments are tested. A turn of a loop has one reading of the clock, at a
-- timeout of src/proposer.cpp one for each service.
--
-- Not modelled: what opens the listening sockets and prints in each `main`; time and logging, which
-- are input and output around the parts above; the other programs of src/extra, among them pingd_src,
-- a changed copy of another project's ping; and the generated build files.
pub mod Base
pub mod Text
pub mod Common
pub mod Paxos
pub mod Acceptors
pub mod Address
pub mod Broker
pub mod FileSelector
pub mod Heartbeat
pub mod LinkDst
pub mod MessageCopy
pub mod Names
pub mod Qpidconf
pub mod Recovery
pub mod Requestor
pub mod Services
pub mod Sockets
