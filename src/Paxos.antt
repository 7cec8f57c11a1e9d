-- ===== src/Paxos.antt =====
-- The Paxos library: include/paxos.h, src/paxos/paxosproposal.cpp and src/paxos/paxos.cpp.
pub mod Proposal
pub mod Message
pub mod Acceptor
pub mod Proposer
pub mod Agreement
pub mod Ballot
pub mod Wire
pub mod Tests
