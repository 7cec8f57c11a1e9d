-- ===== src/Qpidconf/Routes.antt =====
-- Routes with and without `des_route`.
use qpidrecovery.Base.{
  ◌≡◌, refl, true, false, Option, none, some, [], ◌∷◌, ◌++◌, map, ◌==◌, length, if◌then◌else◌,
  Bool-cases, Option-cases, inl, inr,
}
use qpidrecovery.Text.{Str, codes, str_eq, strcmp}
use qpidrecovery.Broker.Operator.{
  Argument, string_arg, uint_arg, bool_arg, map_arg, Invocation, add_link, add_bridge,
}
use qpidrecovery.Recovery.Copy.{Action, on_broker, on_link, link_down}
use qpidrecovery.Qpidconf.{
  View, Ended, conf, conf_route, is_route_kind, route_between, route_bridge, find_dest,
}

-- A call with srcIsLocal false.
unfoldable pub pulled_arg : Argument → Argument
pulled_arg (string_arg n s) = string_arg n s
pulled_arg (uint_arg n k) = uint_arg n k
pulled_arg (bool_arg n b) = if str_eq n (codes "srcIsLocal") then bool_arg n false else bool_arg n b
pulled_arg (map_arg n fs) = map_arg n fs

abbrev pub pulled_call : Invocation → Invocation
pulled_call i = record i { args = map pulled_arg i.args }

module _ {ObjectId : Type 0} where
  unfoldable pub pulled_action : Action ObjectId → Action ObjectId
  pulled_action (on_broker i) = on_broker (pulled_call i)
  pulled_action (on_link o i) = on_link o (pulled_call i)
  pulled_action (link_down a b c) = link_down a b c

  abbrev pub pulled : Option (Ended ObjectId) → Option (Ended ObjectId)
  pulled none = none
  pulled (some e) = some (record e { calls = map pulled_action e.calls })

module _ {ObjectId : Type 0} where
  pulled_between :
      (v : View ObjectId) (kind verb di dp si sp e q : Str)
      → route_between v
          (codes "route" ∷ kind ∷ verb ∷ di ∷ dp ∷ si ∷ sp ∷ e ∷ q ∷ codes "des_route" ∷ [])
          kind
          false
          di
          dp
          si
          sp
        ≡ pulled (
            route_between v
              (codes "route" ∷ kind ∷ verb ∷ si ∷ sp ∷ di ∷ dp ∷ e ∷ q ∷ [])
              kind
              true
              di
              dp
              si
              sp)
  unfolding route_between route_bridge add_link add_bridge pulled_action pulled_arg str_eq strcmp
  pulled_between v kind verb di dp si sp e q = elim (Bool-cases (length v.brokers == 1)) [
    | inr b ↦ rw (b, route_between) refl
    | inl b ↦ elim (Option-cases (find_dest (si ++ (b':' ∷ sp)) v.links)) [
      | inl f ↦ rw (b, f, route_between) refl
      | inr (l, f) ↦ elim (Bool-cases (str_eq kind (codes "dynamic"))) [
        | inl d ↦ rw (b, f, d, route_between, route_bridge) refl
        | inr d ↦ elim (Bool-cases (str_eq kind (codes "queue"))) [
          | inl k ↦ rw (b, f, d, k, route_between, route_bridge) refl
          | inr k ↦ rw (b, f, d, k, route_between, route_bridge) refl
        ]
      ]
    ]
  ]

  -- With `des_route` as the tenth argument, a route does what it does without it and with source and
  -- destination exchanged, but for the flag srcIsLocal of the bridge, which is false.
  pub conf-des_route :
      (v : View ObjectId) (kind verb di dp si sp e q : Str)
      → conf v (codes "route" ∷ kind ∷ verb ∷ di ∷ dp ∷ si ∷ sp ∷ e ∷ q ∷ codes "des_route" ∷ [])
        ≡ pulled (conf v (codes "route" ∷ kind ∷ verb ∷ si ∷ sp ∷ di ∷ dp ∷ e ∷ q ∷ []))
  unfolding conf conf_route str_eq strcmp
  conf-des_route v kind verb di dp si sp e q = elim (Bool-cases (is_route_kind kind)) [
    | inr k ↦ rw (k, conf_route) refl
    | inl k ↦ elim (Bool-cases (str_eq verb (codes "add"))) [
      | inr a ↦ rw (k, a, conf_route) refl
      | inl a ↦ rw (k, a, conf_route) (pulled_between v kind verb di dp si sp e q)
    ]
  ]
