-- ===== src/Common.antt =====
-- The messages of include/common.h between the programs. A char array is the list of its bytes in
-- front of the NUL; the array of addresses of a message is the list of its `count` first ones (the
-- source calls it `length`).
use qpidrecovery.Base.{ℕ, List}
use qpidrecovery.Text.{Str}

pub record ParticipateRequest : Type 0 where
  pub name : Str
  pub brokerip : Str
  pub brokerport : ℕ
  pub votingversion : ℕ
  pub committedversion : ℕ
  pub count : ℕ
  pub acceptor : List Str

pub record ReplyProposer : Type 0 where
  pub name : Str
  pub count : ℕ
  pub ip : List Str

pub record ReplyAddress : Type 0 where
  pub name : Str
  pub ip : Str
  pub port : ℕ
