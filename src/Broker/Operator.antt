-- ===== src/Broker/Operator.antt =====
-- class ObjectOperator and copyTo: the method calls on a broker or on a link. An operator of the
-- wrong type returns -1 without a call: `none`. Otherwise the code is the broker's answer, and the
-- callers in this program do not read it.
use qpidrecovery.Base.{ℕ, Bool, true, false, Option, none, some, List, [], ◌∷◌, ◌++◌, if◌then◌else◌}
use qpidrecovery.Text.{Str, codes}
use qpidrecovery.Broker.Types.{ObjectType, obj_broker, obj_link, type_eq}
use qpidrecovery.Broker.Info.{LinkInfo, ExchangeInfo, QueueInfo, BindingInfo, BridgeInfo}

-- FieldTable holds strings and ints.
pub data Field : Type 0 where
  string_field : Str → Str → Field
  int_field : Str → ℕ → Field

pub data Argument : Type 0 where
  string_arg : Str → Str → Argument
  uint_arg : Str → ℕ → Argument
  bool_arg : Str → Bool → Argument
  map_arg : Str → List Field → Argument

-- What invokeMethod is given.
pub record Invocation : Type 0 where
  pub method : Str
  pub args : List Argument

abbrev alternate_field : Str → List Field
alternate_field [] = []
alternate_field (c ∷ cs) = string_field (codes "alternate-exchange") (c ∷ cs) ∷ []

unfoldable pub add_exchange : ObjectType → Str → Str → ℕ → Str → Option Invocation
add_exchange ty name extype durable alternate =
    if type_eq ty obj_broker
    then some (record {
      method = codes "create";
      args =
          string_arg (codes "type") (codes "exchange")
          ∷ string_arg (codes "name") name
          ∷ map_arg (codes "properties") (
              string_field (codes "exchange-type") extype
              ∷ int_field (codes "durable") durable
              ∷ alternate_field alternate)
          ∷ bool_arg (codes "strict") true
          ∷ [];
    })
    else none

unfoldable pub add_queue : ObjectType → Str → ℕ → ℕ → Str → Option Invocation
add_queue ty name autodelete durable alternate =
    if type_eq ty obj_broker
    then some (record {
      method = codes "create";
      args =
          string_arg (codes "type") (codes "queue")
          ∷ string_arg (codes "name") name
          ∷ map_arg (codes "properties") (
              int_field (codes "durable") durable
              ∷ int_field (codes "auto-delete") autodelete
              ∷ alternate_field alternate)
          ∷ bool_arg (codes "strict") true
          ∷ [];
    })
    else none

unfoldable pub binding_name : Str → Str → Str → Str
binding_name key exname quname = exname ++ (b'/' ∷ (quname ++ (b'/' ∷ key)))

unfoldable pub add_binding : ObjectType → Str → Str → Str → Option Invocation
add_binding ty key exname quname =
    if type_eq ty obj_broker
    then some (record {
      method = codes "create";
      args =
          string_arg (codes "type") (codes "binding")
          ∷ string_arg (codes "name") (binding_name key exname quname)
          ∷ map_arg (codes "properties") []
          ∷ bool_arg (codes "strict") true
          ∷ [];
    })
    else none

-- The arguments behind the port have their default values at every call.
unfoldable pub add_link : ObjectType → Str → ℕ → Option Invocation
add_link ty host port =
    if type_eq ty obj_broker
    then some (record {
      method = codes "connect";
      args =
          string_arg (codes "host") host
          ∷ uint_arg (codes "port") port
          ∷ bool_arg (codes "durable") false
          ∷ string_arg (codes "username") (codes "guest")
          ∷ string_arg (codes "password") (codes "guest")
          ∷ string_arg (codes "authMechanism") []
          ∷ string_arg (codes "transport") (codes "tcp")
          ∷ [];
    })
    else none

-- `durable`, `tag`, `excludes` and `issync` have their default values at every call.
unfoldable pub add_bridge : ObjectType → Str → Str → Str → Bool → Bool → Bool → Option Invocation
add_bridge ty src dest key isqueue isdynamic islocal =
    if type_eq ty obj_link
    then some (record {
      method = codes "bridge";
      args =
          string_arg (codes "src") src
          ∷ string_arg (codes "dest") dest
          ∷ string_arg (codes "key") key
          ∷ bool_arg (codes "durable") false
          ∷ string_arg (codes "tag") []
          ∷ string_arg (codes "excludes") []
          ∷ bool_arg (codes "srcIsLocal") islocal
          ∷ bool_arg (codes "srcIsQueue") isqueue
          ∷ bool_arg (codes "dynamic") isdynamic
          ∷ uint_arg (codes "sync") 0
          ∷ [];
    })
    else none

-- copyTo; BrokerInfo::copyTo returns -1 without a call.
module _ {ObjectId : Type 0} where
  unfoldable pub copy_to_new_dest : LinkInfo ObjectId → Str → ℕ → Option Invocation
  copy_to_new_dest l newhost newport = add_link obj_broker newhost newport

  unfoldable pub copy_link : LinkInfo ObjectId → Option Invocation
  copy_link l = copy_to_new_dest l l.host l.port

  unfoldable pub copy_exchange : ExchangeInfo ObjectId → Option Invocation
  copy_exchange e = add_exchange obj_broker e.name e.extype 0 []

  unfoldable pub copy_queue : QueueInfo ObjectId → Option Invocation
  copy_queue q = add_queue obj_broker q.name 0 0 []

  unfoldable pub copy_binding : BindingInfo ObjectId → Option Invocation
  copy_binding b = add_binding obj_broker b.bindingkey b.exname b.quname

  unfoldable pub copy_bridge : BridgeInfo ObjectId → Option Invocation
  copy_bridge b = add_bridge obj_link b.src b.dest b.routingkey b.isqueue b.isdynamic true
