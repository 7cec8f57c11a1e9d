-- ===== src/Services.antt =====
-- src/proposer.cpp: the monitored services of a proposer, and how a lost heartbeat and a commitment
-- drive the recovery. What the system and other programs answer during a call is a `World`. The call
-- of copyObjects is an action with what it does; a null pointer that would be followed makes a call
-- `none`.
pub mod Copied
pub mod Failover
pub mod Keeps
pub mod Create
pub mod Lists
pub mod Host
pub mod Loop
pub mod Ballot
pub mod Start
mod Tests
use qpidrecovery.Base.{
  ℕ, ◌+◌, Bool, true, false, Option, none, some, List, [], ◌∷◌, ◌++◌, map, ltb, if◌then◌else◌, u32,
}
use qpidrecovery.Text.{Str}
use qpidrecovery.Address.{BrokerAddress, url_to_ip_port}
use qpidrecovery.Broker.Info.{Object}
use qpidrecovery.Paxos.Proposal.{
  Proposal, no_proposal, recovery, acceptor_change, RecoveryProposal, AcceptorChangeProposal,
  new_recovery, new_acceptor_change, max_acceptors,
}
use qpidrecovery.Paxos.Message.{
  PaxosMessage, PaxosResult, handled, ignored, committing_self, committing_other, Effect, Fd,
  register_fd, unregister_fd, close_fd, Outcome,
}
use qpidrecovery.Paxos.Proposer.{
  Proposer, new_proposer, disconnect_acceptors, new_proposal, get_committing_proposal,
  send_commitment, handle_message,
}
use qpidrecovery.Heartbeat.{HeartbeatClient, drop_client}
use qpidrecovery.Recovery.Copy.{Action, copy_objects}
use qpidrecovery.Recovery.Brokers.{Manager, delete_broker, after_copy}

pub record Monitored : Type 0 where
  pub psm : Proposer
  pub hbc : Option HeartbeatClient
  pub name : Str
  pub ip : Str
  pub port : ℕ
  pub informlist : List ℕ

abbrev pub is_self : PaxosResult → Bool
is_self committing_self = true
is_self _ = false

abbrev pub is_commit : PaxosResult → Bool
is_commit committing_self = true
is_commit committing_other = true
is_commit handled = false
is_commit ignored = false

abbrev pub is_ignored : PaxosResult → Bool
is_ignored ignored = true
is_ignored _ = false

-- What a call does: the effects of a state machine, the ReplyAddress that is written to a socket,
-- the close of a socket, copyObjects, the query of a service that LinkDstListener writes to a socket,
-- and the calls of reroute.
pub data Act (ObjectId : Type 0) : Type 0 where
  does : Effect → Act ObjectId
  replied : ℕ → Str → Str → ℕ → Act ObjectId
  closed : ℕ → Act ObjectId
  copied : BrokerAddress → BrokerAddress → Option (List (Action ObjectId)) → Act ObjectId
  queried : ℕ → Str → Act ObjectId
  rerouted : List (Action ObjectId) → Act ObjectId

-- getSecond, tcpconnect, whether a write to a socket succeeds, the url and the score that
-- getBackupBrokerURL gives, checkFailure, and what the backup broker shows.
pub record World (ObjectId : Type 0) : Type 0 where
  pub now : ℕ
  pub answers : List Fd
  pub writable : ℕ → Bool
  pub backup : Option Str
  pub score : ℕ
  pub down : Str → Bool
  pub brokerobjs : List (Object ObjectId)
  pub linkobjs : List (Object ObjectId)

-- The services of one call, with what it does and the recovery manager.
pub record Done (ObjectId : Type 0) : Type 0 where
  pub mon : Monitored
  pub manager : Manager ObjectId
  pub acts : List (Act ObjectId)

-- What a call leaves of all services, of the recovery manager, and what it does.
abbrev pub Services : Type 0 → Type 0
Services ObjectId = List Monitored × Manager ObjectId × List (Act ObjectId)

module _ {ObjectId : Type 0} where
  abbrev pub acts_of : List Effect → List (Act ObjectId)
  acts_of es = map does es

  -- Monitored::informAll: the sockets that are left, and what is written and closed.
  unfoldable pub inform_list : World ObjectId → List ℕ → List ℕ
  inform_list w [] = []
  inform_list w (fd ∷ fds) =
      let rest = inform_list w fds in if w.writable fd then fd ∷ rest else rest

  unfoldable pub inform_acts : World ObjectId → Monitored → List ℕ → List (Act ObjectId)
  inform_acts w mon [] = []
  inform_acts w mon (fd ∷ fds) =
      let rest = inform_acts w mon fds in
      if w.writable fd then replied fd mon.name mon.ip mon.port ∷ rest else closed fd ∷ rest

  unfoldable pub inform_all : World ObjectId → Monitored → Monitored × List (Act ObjectId)
  inform_all w mon =
      (record mon { informlist = inform_list w mon.informlist }, inform_acts w mon mon.informlist)

  unfoldable pub add_inform_list : World ObjectId → ℕ → Monitored → Monitored × List (Act ObjectId)
  add_inform_list w newsfd mon =
      if w.writable newsfd
      then (
        record mon { informlist = mon.informlist ++ (newsfd ∷ []) },
        replied newsfd mon.name mon.ip mon.port ∷ [],
      )
      else (mon, closed newsfd ∷ [])

  -- A committed change of the acceptors: a new state machine of the next version in place of the old.
  unfoldable pub change_acceptors :
      World ObjectId → AcceptorChangeProposal → Monitored → Manager ObjectId → Done ObjectId
  change_acceptors w ap mon manager =
      let (newpsm, connected) =
        new_proposer w.now mon.name (u32 (ap.newversion + 1))
          (new_acceptor_change ap.newversion ap.nacceptor ap.acceptor) w.answers in
      let (old, disconnected) = disconnect_acceptors mon.psm in
      record {
        mon = record mon { psm = newpsm };
        manager = manager;
        acts = acts_of (connected ++ disconnected);
      }

  abbrev pub preceded : List (Act ObjectId) → Option (Done ObjectId) → Option (Done ObjectId)
  preceded es none = none
  preceded es (some d) = some (record d { acts = es ++ d.acts })

  abbrev pub behind :
      Monitored → List Effect → Option (Services ObjectId) → Option (Services ObjectId)
  behind x es none = none
  behind x es (some (xs, manager, acts)) = some (x ∷ xs, manager, acts_of es ++ acts)

  abbrev pub before : List Monitored → Option (Done ObjectId) → Option (Services ObjectId)
  before xs none = none
  before xs (some d) = some (d.mon ∷ xs, d.manager, d.acts)

module _ {ObjectId : Type 0} (id_eq : ObjectId → ObjectId → Bool) where
  -- What a proposer does that commits its own recovery. The events that copyObjects sends wait in the
  -- pipe of the manager.
  unfoldable pub recover :
      World ObjectId
      → RecoveryProposal
      → Monitored
      → Manager ObjectId
      → Monitored × Manager ObjectId × List (Act ObjectId)
  recover w rp mon manager =
      let fail : BrokerAddress = record { ip = rp.failip; port = rp.failport } in
      let backup : BrokerAddress = record { ip = rp.backupip; port = rp.backupport } in
      let calls = copy_objects id_eq w.down w.brokerobjs w.linkobjs fail backup manager.store in
      let (psm, sent) = send_commitment w.now mon.psm in
      (record mon { psm = psm }, after_copy calls manager, copied fail backup calls ∷ acts_of sent)

  unfoldable pub commit_recovery :
      World ObjectId → PaxosResult → RecoveryProposal → Monitored → Manager ObjectId → Done ObjectId
  commit_recovery w r rp mon manager =
      let moved = record mon { ip = rp.backupip; port = rp.backupport } in
      let (m, known, es) = if is_self r then recover w rp moved manager else (moved, manager, []) in
      let (n, fs) = inform_all w m in record { mon = n; manager = known; acts = es ++ fs }

  -- The cases of handleCommit for the type of the proposal. A change to more than MAX_ACCEPTORS
  -- acceptors would write past two arrays: `none`.
  unfoldable pub commit_of :
      World ObjectId
      → PaxosResult
      → Monitored
      → Manager ObjectId
      → Proposal
      → Option (Done ObjectId)
  commit_of w r mon manager no_proposal = some (record { mon = mon; manager = manager; acts = [] })
  commit_of w r mon manager (recovery rp) = some (commit_recovery w r rp mon manager)
  commit_of w r mon manager (acceptor_change ap) =
      if ltb max_acceptors ap.nacceptor then none else some (change_acceptors w ap mon manager)

  -- handleCommit, for a result that is a commitment; `none` is the null proposal.
  unfoldable pub handle_commit :
      World ObjectId → PaxosResult → Monitored → Manager ObjectId → Option (Done ObjectId)
  unfolding commit_of
  handle_commit w r mon manager = elim (get_committing_proposal mon.psm) [
    | none ↦ none
    | some p ↦ commit_of w r mon manager p
  ]

  -- What follows a call of the state machine: its effects, and handleCommit at a commitment.
  unfoldable pub after_outcome :
      World ObjectId → Outcome Proposer → Monitored → Manager ObjectId → Option (Done ObjectId)
  after_outcome w o mon manager =
      let m = record mon { psm = o.machine } in
      if is_commit o.result
      then preceded (acts_of o.effects) (handle_commit w o.result m manager)
      else some (record { mon = m; manager = manager; acts = acts_of o.effects })

  -- startRecovery. Without a heartbeat client, without a backup, or with a url without a colon, the
  -- source follows a null pointer or runs off a string.
  unfoldable pub start_recovery :
      World ObjectId → Monitored → Manager ObjectId → Option (Done ObjectId)
  start_recovery w mon manager = elim mon.hbc [
    | none ↦ none
    | some c ↦ elim w.backup [
      | none ↦ none
      | some url ↦ elim (url_to_ip_port url) [
        | none ↦ none
        | some (bip, bport) ↦ preceded (acts_of (drop_client c)) (
            after_outcome w
              (new_proposal w.now (new_recovery mon.psm.version mon.ip mon.port bip bport w.score)
                mon.psm)
              (record mon { hbc = none })
              (delete_broker (record { ip = mon.ip; port = mon.port }) manager))
      ]
    ]
  ]

  -- The loop of handlePaxosMessage: the first service whose state machine takes the message.
  unfoldable pub deliver_message :
      World ObjectId
      → ℕ
      → PaxosMessage
      → List Monitored
      → Manager ObjectId
      → Option (Services ObjectId)
  deliver_message w fd m [] manager = some ([], manager, [])
  deliver_message w fd m (x ∷ xs) manager =
      let rest = deliver_message w fd m xs manager in
      elim (handle_message w.now fd m x.psm) [
        | none ↦ none
        | some o ↦
            if is_ignored o.result
            then behind (record x { psm = o.machine }) o.effects rest
            else before xs (after_outcome w o x manager)
      ]
