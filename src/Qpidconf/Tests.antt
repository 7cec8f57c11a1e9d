-- ===== src/Qpidconf/Tests.antt =====
-- Witnesses for the configuration program.
use qpidrecovery.Base.{ℕ, if◌then◌else◌, ◌≡◌, refl, false, some, List, [], ◌∷◌, ◌++◌, arith}
use qpidrecovery.Text.{Str, codes, str_eq, strcmp}
use qpidrecovery.Address.{ip_port_to_url, unsigned_to_string}
use qpidrecovery.Broker.Types.{obj_broker}
use qpidrecovery.Broker.Info.{Object, link_object_dest}
use qpidrecovery.Broker.Operator.{add_link, add_queue}
use qpidrecovery.Recovery.Copy.{broker_call, on_link}
use qpidrecovery.Qpidconf.{
  View, Ended, conf, conf_add, conf_queue, on_one_broker, str_to_unsigned, digits_to_unsigned,
}
use qpidrecovery.Qpidconf.Routes.{pulled, conf-des_route}
use qpidrecovery.Qpidconf.Codes.{IsReported, conf_code, IsFirstTo}
use qpidrecovery.Qpidconf.Shown.{conf_route_lem, bridge_call}

abbrev target : Str
target = codes "10.0.0.2"

abbrev source : Str
source = codes "10.0.0.1"

abbrev attribute : Str → Str
attribute name = if str_eq name (codes "host") then target else []

abbrev shown_link : Object ℕ
shown_link = record {
  object_id = 4;
  broker_url = codes "10.0.0.1:5672";
  class_name = codes "link";
  attr_string = attribute;
  attr_uint = λ name. 5672;
  attr_bool = λ name. false;
  attr_ref = λ name. 0;
}

abbrev view : View ℕ
view = record { brokers = shown_link ∷ []; links = shown_link ∷ [] }

conf-des_route_example :
    conf view (
      codes "route"
      ∷ codes "queue"
      ∷ codes "add"
      ∷ source
      ∷ codes "5672"
      ∷ target
      ∷ codes "5672"
      ∷ codes "amq.direct"
      ∷ codes "jobs"
      ∷ codes "des_route"
      ∷ [])
    ≡ pulled (
        conf view (
          codes "route"
          ∷ codes "queue"
          ∷ codes "add"
          ∷ target
          ∷ codes "5672"
          ∷ source
          ∷ codes "5672"
          ∷ codes "amq.direct"
          ∷ codes "jobs"
          ∷ []))
conf-des_route_example =
    conf-des_route view (codes "queue") (codes "add") source (codes "5672") target (codes "5672")
      (codes "amq.direct") (codes "jobs")

abbrev adding : List Str
adding = codes "add" ∷ codes "queue" ∷ codes "jobs" ∷ source ∷ codes "5672" ∷ []

abbrev added : Ended ℕ
added = record {
  broker = some (source, 5672);
  calls = broker_call (add_queue obj_broker (codes "jobs") 0 0 []);
  code = 0;
}

added_lem : conf view adding ≡ some added
unfolding conf conf_add conf_queue on_one_broker str_to_unsigned digits_to_unsigned str_eq strcmp
added_lem = refl

conf_code_example : IsReported view added
conf_code_example = conf_code view adding added added_lem

shown_dest : link_object_dest shown_link ≡ ip_port_to_url target 5672
unfolding link_object_dest ip_port_to_url str_eq strcmp
shown_dest = refl

conf_route_lem_example :
    (k : Object ℕ) × (conf view (
        codes "route"
        ∷ codes "dynamic"
        ∷ codes "add"
        ∷ target
        ∷ unsigned_to_string 5672
        ∷ source
        ∷ unsigned_to_string 5672
        ∷ codes "amq.direct"
        ∷ codes "jobs"
        ∷ [])
      ≡ some (record {
        broker = some (source, 5672);
        calls =
            broker_call (add_link obj_broker target 5672)
            ++ (on_link k (bridge_call (codes "dynamic") (codes "amq.direct") (codes "jobs")) ∷ []);
        code = 0;
      }))
    × IsFirstTo (ip_port_to_url target 5672) view.links k
unfolding str_eq strcmp
conf_route_lem_example =
    conf_route_lem view shown_link shown_link [] [] (codes "dynamic") target source
      (codes "amq.direct") (codes "jobs") 5672 5672 refl refl shown_dest refl (omega arith)
      (omega arith)
