-- ===== src/Services/Lists.antt =====
-- ProposerList, listenProposerList, readProposerList and searchProposerListByIPPort of
-- src/proposer.cpp: the proposers of the brokers at the other ends of the links.
use qpidrecovery.Base.{
  ℕ, Bool, true, false, ◌&&◌, Option, none, some, List, [], ◌∷◌, ◌++◌, ◌==◌, if◌then◌else◌,
}
use qpidrecovery.Text.{Str, str_eq}
use qpidrecovery.Common.{ReplyProposer}
use qpidrecovery.Paxos.Message.{Effect, Fd, register_fd, unregister_fd, close_fd}
use qpidrecovery.FileSelector.{fd_eq}

pub record ProposerList : Type 0 where
  pub ip : Str
  pub port : ℕ
  pub sfd : Fd
  pub plist : ReplyProposer

unfoldable pub search_proposer_list : Str → ℕ → List ProposerList → Option ProposerList
search_proposer_list ip port [] = none
search_proposer_list ip port (x ∷ xs) =
    if str_eq x.ip ip && (x.port == port) then some x else search_proposer_list ip port xs

-- The list that memset leaves.
abbrev pub empty_list : ReplyProposer
empty_list = record { name = []; count = 0; ip = [] }

-- `answer` is what tcpconnect returns; at -1 nothing is kept.
unfoldable pub listen_proposer_list :
    Fd → Str → ℕ → List ProposerList → List ProposerList × List Effect
listen_proposer_list none ip port xs = (xs, [])
listen_proposer_list (some fd) ip port xs = (
  xs ++ (record { ip = ip; port = port; sfd = some fd; plist = empty_list } ∷ []),
  register_fd (some fd) ∷ [],
)

-- What is done with the entry that has the descriptor, by what is read: 1, or -1 at an error. (An
-- incomplete read may overwrite a part of the list that it leaves, which is not shown.)
unfoldable pub update_list : Fd → Option ReplyProposer → ProposerList → ProposerList × List Effect
update_list fd (some r) x = (record x { plist = r }, [])
update_list fd none x = (record x { sfd = none }, unregister_fd fd ∷ close_fd fd ∷ [])

pub record ListReading : Type 0 where
  pub lists : List ProposerList
  pub found : Bool
  pub effects : List Effect

abbrev pub updated : ProposerList × List Effect → List ProposerList → ListReading
updated (x, es) xs = record { lists = x ∷ xs; found = true; effects = es }

-- readProposerList, with whether it returns a value other than 0.
unfoldable pub read_proposer_list : Fd → Option ReplyProposer → List ProposerList → ListReading
read_proposer_list fd got [] = record { lists = []; found = false; effects = [] }
read_proposer_list fd got (x ∷ xs) =
    let rest = read_proposer_list fd got xs in
    if fd_eq x.sfd fd
    then updated (update_list fd got x) xs
    else record rest { lists = x ∷ rest.lists }
