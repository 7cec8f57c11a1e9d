-- ===== src/Qpidconf/Codes.antt =====
-- The exit codes of the program, against what it has done to the broker.
use mathlib.Core.Path.{subst}
use qpidrecovery.Base.{
  ℕ, ◌<◌, ◌≡◌, ◌⊎◌, refl, ◌∙◌, Bool, true, false, Option, none, some, List, [], ◌∷◌, ◌++◌, ◌==◌,
  length, get_elem?, if◌then◌else◌, u32_mod, u32, ◌+◌, ◌-◌, ◌*◌, ◌>>=◌, arith, Bool-cases,
  Option-cases, inl, inr, All, ap, ◌≢◌,
}
use qpidrecovery.Text.{Str, codes, str_eq, str_eq_iff}
use qpidrecovery.Address.{char_value, parse_port, unsigned_to_string, digits}
use qpidrecovery.Address.RoundTrip.{parse_port-digits}
use qpidrecovery.Broker.Types.{obj_broker}
use qpidrecovery.Broker.Info.{Object, link_object_dest}
use qpidrecovery.Broker.Operator.{Invocation, add_link}
use qpidrecovery.Recovery.Copy.{Action, broker_call}
use qpidrecovery.Qpidconf.{
  digits_to_unsigned, str_to_unsigned, View, Ended, refused, conf, conf_add, conf_exchange,
  conf_queue, conf_bind, conf_route, is_exchange_type, is_route_kind, is_local, on_one_broker,
  route_between, route_bridge, find_dest,
}

digits_to_unsigned_lem : (r : ℕ) (s : Str) → digits_to_unsigned r s ≡ parse_port r s
unfolding digits_to_unsigned parse_port
digits_to_unsigned_lem r [] = refl
digits_to_unsigned_lem r (c ∷ cs) =
    digits_to_unsigned_lem (u32 (r * 10 + char_value c + (u32_mod - 48))) cs

-- A printed port is read back.
pub str_to_unsigned_print : (n : ℕ) → n < u32_mod → str_to_unsigned (unsigned_to_string n) ≡ n
unfolding str_to_unsigned unsigned_to_string
str_to_unsigned_print n h =
    digits_to_unsigned_lem 0 (digits 10 n) ∙ parse_port-digits 10 n (omega arith) h

module _ {ObjectId : Type 0} where
  -- Nothing has been done, or a link has been made.
  abbrev pub AtMostLinked : List (Action ObjectId) → Type 0
  AtMostLinked calls =
      (calls ≡ [])
      ⊎ ((host : Str) × (port : ℕ) × (calls ≡ broker_call (add_link obj_broker host port)))

  -- What an exit code stands for.
  abbrev pub IsReported : View ObjectId → Ended ObjectId → Type 0
  IsReported v e = ((e.code ≡ 0) × (length v.brokers ≡ 1)) ⊎ ((e.code ≡ 1) × AtMostLinked e.calls)

  abbrev Reported : View ObjectId → Option (Ended ObjectId) → Type 0
  Reported v none = Unit
  Reported v (some e) = IsReported v e

  on_one_broker-IsReported :
      (v : View ObjectId) (host port : Str) (i : Option Invocation)
      → IsReported v (on_one_broker v host port i)
  unfolding on_one_broker
  on_one_broker-IsReported v host port i = elim (Bool-cases (length v.brokers == 1)) [
    | inl e ↦ rw e (inl (refl, ground arith))
    | inr e ↦ rw e (inr (refl, inl refl))
  ]

  route_between-Reported :
      (v : View ObjectId) (s : List Str) (kind : Str) (islocal : Bool)
      (src_ip src_port dst_ip dst_port : Str)
      → Reported v (route_between v s kind islocal src_ip src_port dst_ip dst_port)
  unfolding route_between
  route_between-Reported v s kind islocal src_ip src_port dst_ip dst_port =
      elim (Bool-cases (length v.brokers == 1)) [
        | inr b ↦ rw (b, route_between) (inr (refl, inl refl))
        | inl b ↦ elim (Option-cases (find_dest (dst_ip ++ (b':' ∷ dst_port)) v.links)) [
          | inl f ↦
              rw (b, f, route_between) (inr (refl, inr (dst_ip, str_to_unsigned dst_port, refl)))
          | inr (l, f) ↦ elim (Option-cases (route_bridge s kind islocal)) [
            | inl g ↦ rw (b, f, g, route_between) tt
            | inr (i, g) ↦ rw (b, f, g, route_between) (inl (refl, ground arith))
          ]
        ]
      ]

  bind-Reported :
      {A : Type 0} (v : View ObjectId) (m : Option A) (f : A → Option (Ended ObjectId))
      → ((a : A) → Reported v (f a))
      → Reported v (m >>= f)
  bind-Reported v none f h = tt
  bind-Reported v (some a) f h = h a

  if_Reported :
      (v : View ObjectId) (b : Bool) (x y : Option (Ended ObjectId))
      → Reported v x
      → Reported v y
      → Reported v (if b then x else y)
  if_Reported v true x y h k = h
  if_Reported v false x y h k = k

  refused-Reported : (v : View ObjectId) → Reported v (some refused)
  refused-Reported v = inr (refl, inl refl)

  exchange-Reported : (v : View ObjectId) (s : List Str) → Reported v (conf_exchange v s)
  unfolding conf_exchange
  exchange-Reported v s = bind-Reported v (get_elem? s 2) _ (λ extype.
      if_Reported v (is_exchange_type extype) _ _
        (bind-Reported v (get_elem? s 3) _ (λ name. bind-Reported v (get_elem? s 4) _ (λ host.
          bind-Reported v (get_elem? s 5) _ (λ port. on_one_broker-IsReported v host port _))))
        (refused-Reported v))

  queue-Reported : (v : View ObjectId) (s : List Str) → Reported v (conf_queue v s)
  unfolding conf_queue
  queue-Reported v s = bind-Reported v (get_elem? s 2) _ (λ name.
      bind-Reported v (get_elem? s 3) _ (λ host.
        bind-Reported v (get_elem? s 4) _ (λ port. on_one_broker-IsReported v host port _)))

  add-Reported : (v : View ObjectId) (s : List Str) → Reported v (conf_add v s)
  unfolding conf_add
  add-Reported v s = bind-Reported v (get_elem? s 1) _ (λ what.
      if_Reported v (str_eq what (codes "exchange")) _ _ (exchange-Reported v s)
        (if_Reported v (str_eq what (codes "queue")) _ _ (queue-Reported v s) (refused-Reported v)))

  bind_command-Reported : (v : View ObjectId) (s : List Str) → Reported v (conf_bind v s)
  unfolding conf_bind
  bind_command-Reported v s = bind-Reported v (get_elem? s 1) _ (λ exname.
      bind-Reported v (get_elem? s 2) _ (λ quname. bind-Reported v (get_elem? s 3) _ (λ key.
        bind-Reported v (get_elem? s 4) _ (λ host.
          bind-Reported v (get_elem? s 5) _ (λ port. on_one_broker-IsReported v host port _)))))

  route-Reported : (v : View ObjectId) (s : List Str) → Reported v (conf_route v s)
  unfolding conf_route
  route-Reported v s = bind-Reported v (get_elem? s 1) _ (λ kind.
      if_Reported v (is_route_kind kind) _ _
        (bind-Reported v (get_elem? s 2) _ (λ verb.
          if_Reported v (str_eq verb (codes "add")) _ _
            (bind-Reported v (get_elem? s 3) _ (λ di. bind-Reported v (get_elem? s 4) _ (λ dp.
              bind-Reported v (get_elem? s 5) _ (λ si. bind-Reported v (get_elem? s 6) _ (λ sp.
                if_Reported v (is_local s) _ _ (route_between-Reported v s kind true si sp di dp)
                  (route_between-Reported v s kind false di dp si sp))))))
            (refused-Reported v)))
        (refused-Reported v))

  conf-Reported : (v : View ObjectId) (s : List Str) → Reported v (conf v s)
  unfolding conf
  conf-Reported v [] = refused-Reported v
  conf-Reported v (command ∷ rest) =
      if_Reported v (str_eq command (codes "add")) _ _ (add-Reported v (command ∷ rest)) (
        if_Reported v (str_eq command (codes "bind")) _ _ (bind_command-Reported v (command ∷ rest))
          (if_Reported v (str_eq command (codes "route")) _ _ (route-Reported v (command ∷ rest))
            (refused-Reported v)))

  -- Whatever the arguments are, if the program ends, it returns 0 only where the broker shows exactly
  -- one broker object, and else 1, and then it has made no method call, or only the one that makes a
  -- link.
  pub conf_code :
      (v : View ObjectId) (s : List Str) (e : Ended ObjectId) → conf v s ≡ some e → IsReported v e
  conf_code v s e h = subst (Reported v) h (conf-Reported v s)

  -- The first link to the url.
  abbrev pub IsFirstTo : Str → List (Object ObjectId) → Object ObjectId → Type 0
  IsFirstTo url links k =
      (zs : List (Object ObjectId)) × (ws : List (Object ObjectId)) × (links ≡ zs ++ (k ∷ ws))
      × (link_object_dest k ≡ url)
      × All (λ (o : Object ObjectId). link_object_dest o ≢ url) zs

  pub found_dest :
      (url : Str) (xs : List (Object ObjectId)) (l : Object ObjectId) (ys : List (Object ObjectId))
      → link_object_dest l ≡ url
      → (k : Object ObjectId) × (find_dest url (xs ++ (l ∷ ys)) ≡ some k)
        × IsFirstTo url (xs ++ (l ∷ ys)) k
  unfolding find_dest
  found_dest url [] l ys h =
      (l, rw ((str_eq_iff (link_object_dest l) url).1 h) refl, ([], ys, refl, h, tt))
  found_dest url (x ∷ xs) l ys h = elim (Bool-cases (str_eq (link_object_dest x) url)) [
    | inl e ↦
        (x, rw e refl, ([], xs ++ (l ∷ ys), refl, (str_eq_iff (link_object_dest x) url).0 e, tt))
    | inr e ↦
        let (k, p, first) = found_dest url xs l ys h in
        let (zs, ws, q, r, n) = first in
        (
          k,
          rw e p,
          (
            x ∷ zs,
            ws,
            ap (λ z. x ∷ z) q,
            r,
            (λ m. ground (arith, e, (str_eq_iff (link_object_dest x) url).1 m), n),
          ),
        )
  ]
