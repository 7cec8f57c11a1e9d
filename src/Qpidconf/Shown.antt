-- ===== src/Qpidconf/Shown.antt =====
-- A route whose link the broker shows.
use qpidrecovery.Base.{
  ℕ, ◌<◌, ◌≡◌, refl, true, false, some, List, [], ◌∷◌, ◌++◌, u32_mod, Bool-cases, inl, inr, not,
  ◌&&◌, if◌then◌else◌,
}
use qpidrecovery.Text.{Str, codes, str_eq, strcmp}
use qpidrecovery.Address.{ip_port_to_url, unsigned_to_string}
use qpidrecovery.Broker.Types.{obj_broker}
use qpidrecovery.Broker.Info.{Object, link_object_dest}
use qpidrecovery.Broker.Operator.{Invocation, add_link, add_bridge, string_arg, bool_arg, uint_arg}
use qpidrecovery.Recovery.Copy.{broker_call, on_link}
use qpidrecovery.Qpidconf.{View, conf, conf_route, is_route_kind, route_between, route_bridge}
use qpidrecovery.Qpidconf.Codes.{str_to_unsigned_print, found_dest, IsFirstTo}

-- The bridge that a kind of route asks for: from the queue or the exchange, to the exchange.
abbrev pub bridge_call : Str → Str → Str → Invocation
bridge_call kind ename qname =
    let isdynamic = str_eq kind (codes "dynamic") in
    let isqueue = not isdynamic && str_eq kind (codes "queue") in
    record {
      method = codes "bridge";
      args =
          string_arg (codes "src") (if isqueue then qname else ename)
          ∷ string_arg (codes "dest") ename
          ∷ string_arg (codes "key") (codes "key")
          ∷ bool_arg (codes "durable") false
          ∷ string_arg (codes "tag") []
          ∷ string_arg (codes "excludes") []
          ∷ bool_arg (codes "srcIsLocal") true
          ∷ bool_arg (codes "srcIsQueue") isqueue
          ∷ bool_arg (codes "dynamic") isdynamic
          ∷ uint_arg (codes "sync") 0
          ∷ [];
    }

route_bridge_call :
    (a b c d e f g ename qname kind : Str)
    → route_bridge (a ∷ b ∷ c ∷ d ∷ e ∷ f ∷ g ∷ ename ∷ qname ∷ []) kind true
      ≡ some (some (bridge_call kind ename qname))
unfolding route_bridge add_bridge
route_bridge_call a b c d e f g ename qname kind =
    elim (Bool-cases (str_eq kind (codes "dynamic"))) [
      | inl x ↦ rw (x, route_bridge, add_bridge) refl
      | inr x ↦ elim (Bool-cases (str_eq kind (codes "queue"))) [
        | inl y ↦ rw (x, y, route_bridge, add_bridge) refl
        | inr y ↦ rw (x, y, route_bridge, add_bridge) refl
      ]
    ]

module _ {ObjectId : Type 0} where
  -- A route between addresses with printed ports, on a source broker that shows one broker object and
  -- a link to the destination, makes the link, and then the bridge of its kind on the first link to the
  -- destination; the program connects to the source, with the port that was printed, and returns 0.
  pub conf_route_lem :
      (v : View ObjectId) (b l : Object ObjectId) (xs ys : List (Object ObjectId))
      (kind dst src ename qname : Str) (n m : ℕ)
      → v.brokers ≡ b ∷ []
      → v.links ≡ xs ++ (l ∷ ys)
      → link_object_dest l ≡ ip_port_to_url dst n
      → is_route_kind kind ≡ true
      → n < u32_mod
      → m < u32_mod
      → (k : Object ObjectId) × (conf v (
            codes "route"
            ∷ kind
            ∷ codes "add"
            ∷ dst
            ∷ unsigned_to_string n
            ∷ src
            ∷ unsigned_to_string m
            ∷ ename
            ∷ qname
            ∷ [])
          ≡ some (record {
            broker = some (src, m);
            calls =
                broker_call (add_link obj_broker dst n)
                ++ (on_link k (bridge_call kind ename qname) ∷ []);
            code = 0;
          }))
        × IsFirstTo (ip_port_to_url dst n) v.links k
  unfolding conf conf_route route_between ip_port_to_url str_eq strcmp
  conf_route_lem v b l xs ys kind dst src ename qname n m h k d t p q =
      let (found, f, g) = found_dest (ip_port_to_url dst n) xs l ys d in
      let r =
        route_bridge_call (codes "route") kind (codes "add") dst (unsigned_to_string n) src
          (unsigned_to_string m) ename qname kind in
      (
        found,
        rw
            (
              t,
              conf_route,
              route_between,
              h,
              k,
              f,
              r,
              str_to_unsigned_print n p,
              str_to_unsigned_print m q,
            )
            refl,
        rw k g,
      )
