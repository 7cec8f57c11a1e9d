-- ===== src/Services/Loop/Turns.antt =====
-- Whatever a turn of the loop of src/proposer.cpp gets, the services stay served.
use qpidrecovery.Paxos.Proposal.{max_acceptors}
use mathlib.Core.Path.{subst}
use qpidrecovery.Base.{
  ℕ, ◌≡◌, refl, Bool, Option, none, some, List, [], map, Bool-cases, Option-cases, inl, inr, ◌==◌,
  ltb,
}
use qpidrecovery.Text.{Str}
use qpidrecovery.Address.{url_to_ip_port}
use qpidrecovery.Broker.Types.{type_eq, obj_link}
use qpidrecovery.Broker.Info.{
  AnyInfo, broker, link, exchange, queue, binding, bridge, get_link_dest_url,
}
use qpidrecovery.FileSelector.{
  ReadyFd, ready, ready_timeout, ready_error, ready_nothing, fd_eq, apply_effects, reset_timeout,
}
use qpidrecovery.LinkDst.{
  AddressChange, LinkEffect, Reading, not_found, read_error, no_change, changed,
  read_address_change, listen_address_change,
}
use qpidrecovery.Recovery.Brokers.{
  ListenerEvent, broker_disconnection, object_property, link_down_event, handle_event, Manager,
}
use qpidrecovery.Services.{Monitored, Act, World, Services}
use qpidrecovery.Services.Keeps.{deliver_message-Keeps}
use qpidrecovery.Heartbeat.{Heard, hb_not_found, hb_handled, hb_lost}
use qpidrecovery.Services.Create.{receive_heartbeat, create_proposer}
use qpidrecovery.Services.Lists.{search_proposer_list, read_proposer_list}
use qpidrecovery.Services.Host.{
  Host, link_act, Arrival, Turn, or_from, on_request, on_query, on_link_down, on_object, on_event,
  on_recovery, take_answers,
}
use qpidrecovery.Services.Loop.{
  perform, selector_effects, with_services, on_message, on_list, on_change, on_reading, on_heard,
  on_socket, next_total, on_timeout, turn,
}
use qpidrecovery.Services.Loop.Served.{
  IsServed, IsServed-KeepsAll, put_proposer-IsServed, receive_heartbeat-KeepsAll,
  answer_query-KeepsAll, recover_at-KeepsAll, tick_services-KeepsAll,
}

module _ {ObjectId : Type 0} where
  -- A turn that is not a fault leaves the services served.
  abbrev TurnIsServed : Option (Turn ObjectId) → Type 0
  TurnIsServed none = Unit
  TurnIsServed (some t) = IsServed t.host.monitor

  perform_served : (o : Option (Turn ObjectId)) → TurnIsServed o → TurnIsServed (perform o)
  unfolding perform
  perform_served none h = tt
  perform_served (some t) h =
      elim (Option-cases (apply_effects (selector_effects t.acts) t.host.fs)) [
        | inl e ↦ rw e tt
        | inr (fs, e) ↦ rw e h
      ]

  with_services_served :
      (h : Host ObjectId) (o : Option (Services ObjectId))
      → ((ys : List Monitored) (n : Manager ObjectId) (es : List (Act ObjectId))
          → o ≡ some (ys, n, es)
          → IsServed ys)
      → TurnIsServed (with_services h o)
  with_services_served h none k = tt
  with_services_served h (some (ys, n, es)) k = k ys n es refl

  on_request_served :
      (a : Arrival ObjectId) (h : Host ObjectId)
      → IsServed h.monitor
      → TurnIsServed (on_request a h)
  unfolding on_request create_proposer
  on_request_served a h k = elim (Option-cases a.request) [
    | inl e ↦ rw e k
    | inr ((fd, from, r), e) ↦ elim (Bool-cases (ltb max_acceptors r.count)) [
      | inl f ↦ rw (e, on_request, create_proposer, f) tt
      | inr f ↦
          rw (e, on_request, create_proposer, f)
            (put_proposer-IsServed a.world.now a.world.answers r (or_from r.brokerip from) h.monitor
              k)
    ]
  ]

  on_query_served :
      (a : Arrival ObjectId) (h : Host ObjectId) → IsServed h.monitor → TurnIsServed (on_query a h)
  unfolding on_query
  on_query_served a h k = elim (Option-cases a.asked) [
    | inl e ↦ rw e k
    | inr ((fd, r), e) ↦
        rw e (IsServed-KeepsAll h.monitor _ (answer_query-KeepsAll a.world fd r.name h.monitor) k)
  ]

  on_link_down_served :
      (a : Arrival ObjectId) (sip : Str) (sport : ℕ) (dip : Str) (dport : ℕ) (h : Host ObjectId)
      → IsServed h.monitor
      → TurnIsServed (on_link_down a sip sport dip dport h)
  unfolding on_link_down
  on_link_down_served a sip sport dip dport h k = elim (Bool-cases (a.world.down dip)) [
    | inl e ↦ elim (Option-cases (search_proposer_list dip dport h.dstproposers)) [
      | inl f ↦ simp (e, f) k
      | inr (p, f) ↦
          elim (Option-cases (
            listen_address_change p.plist.name (take_answers p.plist.count a.world.answers) sip
              sport dip dport h.listening)) [
                | inl g ↦ rw (e, f, g, on_link_down) tt
                | inr (u, g) ↦ rw (e, f, g, on_link_down) k
              ]
    ]
    | inr e ↦ rw e k
  ]

  on_object_served :
      (a : Arrival ObjectId) (x : AnyInfo ObjectId) (h : Host ObjectId)
      → IsServed h.monitor
      → TurnIsServed (on_object a x h)
  unfolding on_object
  on_object_served a (link l) h k = elim (Option-cases (url_to_ip_port (get_link_dest_url l))) [
    | inl e ↦ rw (e, on_object) tt
    | inr (u, e) ↦ rw (e, on_object) k
  ]
  on_object_served a (broker x) h k = tt
  on_object_served a (exchange x) h k = tt
  on_object_served a (queue x) h k = tt
  on_object_served a (binding x) h k = tt
  on_object_served a (bridge x) h k = tt

module _ {ObjectId : Type 0} (id_eq : ObjectId → ObjectId → Bool) where
  on_event_served :
      (a : Arrival ObjectId) (e : ListenerEvent ObjectId) (h : Host ObjectId)
      → IsServed h.monitor
      → TurnIsServed (on_event id_eq a e h)
  unfolding on_event
  on_event_served a (broker_disconnection ip port) h k = k
  on_event_served a (link_down_event sip sport dip dport fromqmf) h k =
      on_link_down_served a sip sport dip dport h k
  on_event_served a (object_property t x) h k = elim (Bool-cases (type_eq t obj_link)) [
    | inl e ↦ rw e (on_object_served a x h k)
    | inr e ↦ rw e k
  ]

  on_recovery_served :
      (a : Arrival ObjectId) (h : Host ObjectId)
      → IsServed h.monitor
      → TurnIsServed (on_recovery id_eq a h)
  unfolding on_recovery
  on_recovery_served a h k = elim (Option-cases (handle_event id_eq h.manager)) [
    | inl e ↦ rw (e, on_recovery) tt
    | inr ((v, manager), e) ↦
        rw (e, on_recovery) (on_event_served a v (record h { manager = manager }) k)
  ]

  on_message_served :
      (a : Arrival ObjectId) (fd : ℕ) (h : Host ObjectId)
      → IsServed h.monitor
      → TurnIsServed (on_message id_eq a fd h)
  unfolding on_message
  on_message_served a fd h k = elim (Option-cases a.received) [
    | inl e ↦ rw e k
    | inr (m, e) ↦ rw e (
        with_services_served h _ (λ ys n es p.
          IsServed-KeepsAll h.monitor ys
            (deliver_message-Keeps id_eq a.world fd m h.monitor ys h.manager n es p) k))
  ]

  on_list_served :
      (a : Arrival ObjectId) (fd : ℕ) (h : Host ObjectId)
      → IsServed h.monitor
      → TurnIsServed (on_list id_eq a fd h)
  unfolding on_list
  on_list_served a fd h k =
      elim (Bool-cases ((read_proposer_list (some fd) a.plist h.dstproposers).found)) [
        | inl e ↦ rw e k
        | inr e ↦ rw e (on_message_served a fd h k)
      ]

  on_change_served :
      (a : Arrival ObjectId) (sip : Str) (sport : ℕ) (oip : Str) (oport : ℕ) (nip : Str) (nport : ℕ)
      (h : Host ObjectId) (es : List (Act ObjectId))
      → IsServed h.monitor
      → TurnIsServed (on_change id_eq a sip sport oip oport nip nport h es)
  unfolding on_change
  on_change_served a sip sport oip oport nip nport h es k = elim (Bool-cases (a.world.down sip)) [
    | inl e ↦ rw e k
    | inr e ↦ rw e k
  ]

  on_reading_served :
      (a : Arrival ObjectId) (fd : ℕ) (h : Host ObjectId)
      (r : List AddressChange × Reading × List LinkEffect)
      → IsServed h.monitor
      → TurnIsServed (on_reading id_eq a fd h r)
  unfolding on_reading
  on_reading_served a fd h (listening, not_found, es) k = on_list_served a fd h k
  on_reading_served a fd h (listening, read_error, es) k = k
  on_reading_served a fd h (listening, no_change, es) k = k
  on_reading_served a fd h (listening, changed sip sport oip oport nip nport, es) k =
      on_change_served a sip sport oip oport nip nport (record h { listening = listening })
        (map link_act es) k

  on_heard_served :
      (a : Arrival ObjectId) (fd : ℕ) (h : Host ObjectId) (xs : List Monitored) (r : Heard)
      → IsServed h.monitor
      → IsServed xs
      → TurnIsServed (on_heard id_eq a fd h (xs, r))
  unfolding on_heard
  on_heard_served a fd h xs hb_not_found k l =
      on_reading_served a fd h (read_address_change fd a.address h.listening) k
  on_heard_served a fd h xs hb_handled k l = l
  on_heard_served a fd h xs (hb_lost i) k l = with_services_served h _ (λ ys n es p.
      IsServed-KeepsAll xs ys (recover_at-KeepsAll id_eq a.world i [] xs ys h.manager n es p) l)

  on_socket_served :
      (a : Arrival ObjectId) (fd : ℕ) (h : Host ObjectId)
      → IsServed h.monitor
      → TurnIsServed (on_socket id_eq a fd h)
  unfolding on_socket
  on_socket_served a fd h k =
      let (xs, r) = receive_heartbeat a.world.now a.whole (some fd) h.monitor in
      on_heard_served a fd h xs r k (
        IsServed-KeepsAll h.monitor xs
          (receive_heartbeat-KeepsAll a.world.now a.whole (some fd) h.monitor) k)

  on_timeout_served :
      (w : ℕ → World ObjectId) (h : Host ObjectId)
      → IsServed h.monitor
      → TurnIsServed (on_timeout id_eq w h)
  unfolding on_timeout
  on_timeout_served w h k =
      with_services_served
        (record h { totaltime = next_total h.totaltime; fs = reset_timeout 4 0 h.fs }) _
        (λ ys n es p.
          IsServed-KeepsAll h.monitor ys
            (tick_services-KeepsAll id_eq w 0 (next_total h.totaltime == 0) h.monitor ys h.manager n
              es p)
            k)

  turn_served :
      (a : Arrival ObjectId) (w : ℕ → World ObjectId) (r : ReadyFd) (h : Host ObjectId)
      → IsServed h.monitor
      → TurnIsServed (turn id_eq a w r h)
  unfolding turn
  turn_served a w ready_error h k = k
  turn_served a w ready_nothing h k = k
  turn_served a w ready_timeout h k = perform_served _ (on_timeout_served w h k)
  turn_served a w (ready none) h k = k
  turn_served a w (ready (some fd)) h k = elim (Bool-cases (fd_eq (some fd) h.requestsfd)) [
    | inl e ↦ rw (e, turn) (perform_served _ (on_request_served a h k))
    | inr e ↦ elim (Bool-cases (fd_eq (some fd) h.querysfd)) [
      | inl f ↦ rw (e, f, turn) (perform_served _ (on_query_served a h k))
      | inr f ↦ elim (Bool-cases (fd_eq (some fd) h.recoveryfd)) [
        | inl g ↦ rw (e, f, g, turn) (perform_served _ (on_recovery_served a h k))
        | inr g ↦ rw (e, f, g, turn) (perform_served _ (on_socket_served a fd h k))
      ]
    ]
  ]

  -- Whatever a turn of the loop of the proposer program gets and whatever the calls in it return,
  -- if no two services have one name and each has a state machine of its own name, this holds again
  -- after the turn.
  pub turn-IsServed :
      (a : Arrival ObjectId) (w : ℕ → World ObjectId) (r : ReadyFd) (h : Host ObjectId)
      (t : Turn ObjectId)
      → IsServed h.monitor
      → turn id_eq a w r h ≡ some t
      → IsServed t.host.monitor
  turn-IsServed a w r h t k e = subst TurnIsServed e (turn_served a w r h k)
