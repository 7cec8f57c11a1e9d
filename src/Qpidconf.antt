-- ===== src/Qpidconf.antt =====
-- src/extra/qpidconf.cpp: the program that adds an exchange, a queue, a binding or a route to a
-- broker. The arguments are those behind the program's name. The objects that the broker shows to
-- getObjects are given; an access outside of the array of arguments is `none`.
pub mod Routes
pub mod Codes
pub mod Shown
mod Tests
use qpidrecovery.Base.{
  ℕ, ◌+◌, ◌-◌, ◌*◌, Bool, true, false, not, ◌||◌, Option, none, some, List, [], ◌∷◌, ◌++◌, ◌==◌,
  leb, length, get_elem?, get_or, if◌then◌else◌, u32, u32_mod, ◌>>=◌,
}
use qpidrecovery.Text.{Str, codes, str_eq}
use qpidrecovery.Address.{char_value}
use qpidrecovery.Broker.Types.{obj_broker, obj_link}
use qpidrecovery.Broker.Info.{Object, link_object_dest}
use qpidrecovery.Broker.Operator.{
  Invocation, add_exchange, add_queue, add_binding, add_link, add_bridge,
}
use qpidrecovery.Recovery.Copy.{Action, broker_call, link_call}

-- strToUnsigned, from the number in front.
unfoldable pub digits_to_unsigned : ℕ → Str → ℕ
digits_to_unsigned r [] = r
digits_to_unsigned r (c ∷ cs) = digits_to_unsigned (u32 (r * 10 + char_value c + (u32_mod - 48))) cs

unfoldable pub str_to_unsigned : Str → ℕ
str_to_unsigned s = digits_to_unsigned 0 s

-- What getObjects gives for "broker", and then for "link".
pub record View (ObjectId : Type 0) : Type 0 where
  pub brokers : List (Object ObjectId)
  pub links : List (Object ObjectId)

-- The broker that the program connects to, its method calls, and the exit code.
pub record Ended (ObjectId : Type 0) : Type 0 where
  pub broker : Option (Str × ℕ)
  pub calls : List (Action ObjectId)
  pub code : ℕ

abbrev pub is_exchange_type : Str → Bool
is_exchange_type s =
    str_eq s (codes "direct")
    || str_eq s (codes "fanout")
    || str_eq s (codes "topic")
    || str_eq s (codes "headers")

abbrev pub is_route_kind : Str → Bool
is_route_kind k = str_eq k (codes "dynamic") || str_eq k (codes "queue") || str_eq k (codes "route")

-- The bridge of a kind of route.
unfoldable pub route_bridge : List Str → Str → Bool → Option (Option Invocation)
route_bridge s kind islocal =
    if str_eq kind (codes "dynamic")
    then (do
      ename ← get_elem? s 7
      some (add_bridge obj_link ename ename (codes "key") false true islocal))
    else if str_eq kind (codes "queue")
    then (do
      ename ← get_elem? s 7
      qname ← get_elem? s 8
      some (add_bridge obj_link qname ename (codes "key") true false islocal))
    else (do
      ename ← get_elem? s 7
      some (add_bridge obj_link ename ename (codes "key") false false islocal))

abbrev pub is_local : List Str → Bool
is_local s = if leb (length s) 9 then true else not (str_eq (get_or s 9 []) (codes "des_route"))

module _ {ObjectId : Type 0} where
  abbrev pub refused : Ended ObjectId
  refused = record { broker = none; calls = []; code = 1 }

  -- One call on the one broker object.
  unfoldable pub on_one_broker : View ObjectId → Str → Str → Option Invocation → Ended ObjectId
  on_one_broker v host port i =
      if length v.brokers == 1
      then record { broker = some (host, str_to_unsigned port); calls = broker_call i; code = 0 }
      else record { broker = some (host, str_to_unsigned port); calls = []; code = 1 }

  unfoldable pub conf_exchange : View ObjectId → List Str → Option (Ended ObjectId)
  unfolding on_one_broker
  conf_exchange v s = do
    extype ← get_elem? s 2
    if is_exchange_type extype
        then (do
          name ← get_elem? s 3
          host ← get_elem? s 4
          port ← get_elem? s 5
          some (on_one_broker v host port (add_exchange obj_broker name extype 0 [])))
        else some refused

  unfoldable pub conf_queue : View ObjectId → List Str → Option (Ended ObjectId)
  unfolding on_one_broker
  conf_queue v s = do
    name ← get_elem? s 2
    host ← get_elem? s 3
    port ← get_elem? s 4
    some (on_one_broker v host port (add_queue obj_broker name 0 0 []))

  unfoldable pub conf_add : View ObjectId → List Str → Option (Ended ObjectId)
  unfolding conf_exchange conf_queue
  conf_add v s = do
    what ← get_elem? s 1
    if str_eq what (codes "exchange")
        then conf_exchange v s
        else if str_eq what (codes "queue")
        then conf_queue v s
        else some refused

  unfoldable pub conf_bind : View ObjectId → List Str → Option (Ended ObjectId)
  unfolding on_one_broker
  conf_bind v s = do
    exname ← get_elem? s 1
    quname ← get_elem? s 2
    key ← get_elem? s 3
    host ← get_elem? s 4
    port ← get_elem? s 5
    some (on_one_broker v host port (add_binding obj_broker key exname quname))

  -- The loop over the links, up to the first with the url of the destination.
  unfoldable pub find_dest : Str → List (Object ObjectId) → Option (Object ObjectId)
  find_dest url [] = none
  find_dest url (l ∷ ls) = if str_eq (link_object_dest l) url then some l else find_dest url ls

  -- From the broker at the source: a link to the destination, and a bridge on it.
  unfoldable pub route_between :
      View ObjectId → List Str → Str → Bool → Str → Str → Str → Str → Option (Ended ObjectId)
  unfolding find_dest route_bridge
  route_between v s kind islocal src_ip src_port dst_ip dst_port =
      let source = some (src_ip, str_to_unsigned src_port) in
      let linked = broker_call (add_link obj_broker dst_ip (str_to_unsigned dst_port)) in
      if length v.brokers == 1
      then (elim (find_dest (dst_ip ++ (b':' ∷ dst_port)) v.links) [
        | none ↦ some (record { broker = source; calls = linked; code = 1 })
        | some l ↦ (do
          bridge ← route_bridge s kind islocal
          some (record { broker = source; calls = linked ++ link_call l bridge; code = 0 }))
      ])
      else some (record { broker = source; calls = []; code = 1 })

  unfoldable pub conf_route : View ObjectId → List Str → Option (Ended ObjectId)
  unfolding route_between
  conf_route v s = do
    kind ← get_elem? s 1
    if is_route_kind kind
        then (do
          verb ← get_elem? s 2
          if str_eq verb (codes "add")
              then (do
                des_ip ← get_elem? s 3
                des_port ← get_elem? s 4
                src_ip ← get_elem? s 5
                src_port ← get_elem? s 6
                if is_local s
                    then route_between v s kind true src_ip src_port des_ip des_port
                    else route_between v s kind false des_ip des_port src_ip src_port)
              else some refused)
        else some refused

  -- `main`.
  unfoldable pub conf : View ObjectId → List Str → Option (Ended ObjectId)
  unfolding conf_add conf_bind conf_route
  conf v [] = some refused
  conf v (command ∷ rest) =
      if str_eq command (codes "add")
      then conf_add v (command ∷ rest)
      else if str_eq command (codes "bind")
      then conf_bind v (command ∷ rest)
      else if str_eq command (codes "route")
      then conf_route v (command ∷ rest)
      else some refused
