-- ===== src/Services/Loop/Served.antt =====
-- Each service of src/proposer.cpp is monitored once, through every turn of the loop.
use mathlib.Core.Path.{subst}
use mathlib.Core.List.{append_assoc}
use qpidrecovery.Base.{
  some_injective, ℕ, zero, suc, ◌≡◌, refl, sym, ap, ◌∙◌, Bool, true, false, Option, none, some,
  List, [], ◌∷◌, ◌++◌, arith, All, Bool-cases, Option-cases, inl, inr, ◌*◌,
}
use qpidrecovery.Text.{Str, str_eq, str_eq_iff}
use qpidrecovery.Common.{ParticipateRequest}
use qpidrecovery.Paxos.Message.{Fd}
use qpidrecovery.Paxos.Proposer.{new_proposer, check_timeout}
use qpidrecovery.Heartbeat.{HeartbeatClient, heartbeat_period, read_message, is_expired}
use qpidrecovery.Recovery.Brokers.{Manager}
use qpidrecovery.Services.{Monitored, Act, World, Done, Services}
use qpidrecovery.Services.Keeps.{
  Keeps, KeepsAll, Keeps-refl, Keeps-trans, KeepsAll-refl, KeepsAll-append, check_timeout_name,
  with_machine, inform_all-Keeps, add_inform_list-Keeps, start_recovery-Keeps, preceded-some,
}
use qpidrecovery.Services.Create.{
  erase_service, put_proposer, beats_on, hear, receive_heartbeat, with_client,
}
use qpidrecovery.Services.Host.{answer_query, recover_at, replaced}
use qpidrecovery.Services.Loop.{expire_client, tick_service, tick_services, joined}

-- No other service has the name.
abbrev pub Unused : Str → List Monitored → Type 0
Unused n = All (λ (y : Monitored). str_eq y.name n ≡ false)

-- Every service has a state machine of its name, and no two have one name.
abbrev pub IsServed : List Monitored → Type 0
IsServed [] = Unit
IsServed (x ∷ xs) = (x.psm.name ≡ x.name) × Unused x.name xs × IsServed xs

Unused-KeepsAll : (n : Str) (xs ys : List Monitored) → KeepsAll xs ys → Unused n xs → Unused n ys
Unused-KeepsAll n [] [] k h = tt
Unused-KeepsAll n [] (y ∷ ys) k h = absurd k
Unused-KeepsAll n (x ∷ xs) [] k h = absurd k
Unused-KeepsAll n (x ∷ xs) (y ∷ ys) k h =
    (ap (λ z. str_eq z n) k.0.name ∙ h.0, Unused-KeepsAll n xs ys k.1 h.1)

pub IsServed-KeepsAll : (xs ys : List Monitored) → KeepsAll xs ys → IsServed xs → IsServed ys
IsServed-KeepsAll [] [] k h = tt
IsServed-KeepsAll [] (y ∷ ys) k h = absurd k
IsServed-KeepsAll (x ∷ xs) [] k h = absurd k
IsServed-KeepsAll (x ∷ xs) (y ∷ ys) k h = (
  k.0.machine h.0 ∙ sym k.0.name,
  subst (λ n. Unused n ys) (sym k.0.name) (Unused-KeepsAll x.name xs ys k.1 h.1),
  IsServed-KeepsAll xs ys k.1 h.2,
)

Unused-erase_service :
    (n name : Str) (xs : List Monitored) → Unused n xs → Unused n (erase_service name xs)
unfolding erase_service
Unused-erase_service n name [] h = tt
Unused-erase_service n name (x ∷ xs) h = elim (Bool-cases (str_eq x.name name)) [
  | inl e ↦ rw e h.1
  | inr e ↦ rw e (h.0, Unused-erase_service n name xs h.1)
]

pub IsServed-erase_service :
    (name : Str) (xs : List Monitored) → IsServed xs → IsServed (erase_service name xs)
unfolding erase_service
IsServed-erase_service name [] h = tt
IsServed-erase_service name (x ∷ xs) h = elim (Bool-cases (str_eq x.name name)) [
  | inl e ↦ rw e h.2
  | inr e ↦ rw e (h.0, Unused-erase_service x.name name xs h.1, IsServed-erase_service name xs h.2)
]

-- After the erasure the name is free, if no two services had it.
pub erase_service-Unused :
    (name : Str) (xs : List Monitored) → IsServed xs → Unused name (erase_service name xs)
unfolding erase_service
erase_service-Unused name [] h = tt
erase_service-Unused name (x ∷ xs) h = elim (Bool-cases (str_eq x.name name)) [
  | inl e ↦ rw e (subst (λ n. Unused n xs) ((str_eq_iff x.name name).0 e) h.1)
  | inr e ↦ rw e (e, erase_service-Unused name xs h.2)
]

Unused-append :
    (n : Str) (xs : List Monitored) (x : Monitored)
    → Unused n xs
    → str_eq x.name n ≡ false
    → Unused n (xs ++ (x ∷ []))
Unused-append n [] x h k = (k, tt)
Unused-append n (y ∷ xs) x h k = (h.0, Unused-append n xs x h.1 k)

pub str_eq_flip : (a b : Str) → str_eq a b ≡ false → str_eq b a ≡ false
str_eq_flip a b h = ground (arith, (str_eq_iff b a).0, (str_eq_iff a b).1)

IsServed-append :
    (xs : List Monitored) (x : Monitored)
    → IsServed xs
    → Unused x.name xs
    → x.psm.name ≡ x.name
    → IsServed (xs ++ (x ∷ []))
IsServed-append [] x h u k = (k, tt, tt)
IsServed-append (y ∷ xs) x h u k = (
  h.0,
  Unused-append y.name xs x h.1 (str_eq_flip y.name x.name u.0),
  IsServed-append xs x h.2 u.1 k,
)

pub put_proposer-IsServed :
    (now : ℕ) (answers : List Fd) (r : ParticipateRequest) (from : Str) (xs : List Monitored)
    → IsServed xs
    → IsServed (put_proposer now answers r from xs).0
unfolding put_proposer new_proposer
put_proposer-IsServed now answers r from xs h =
    IsServed-append (erase_service r.name xs) _ (IsServed-erase_service r.name xs h)
      (erase_service-Unused r.name xs h) refl

hear-Keeps : (now : ℕ) (whole : Bool) (x : Monitored) → Keeps x (hear now whole x).0
unfolding hear read_message
hear-Keeps now whole x = elim (Option-cases x.hbc) [
  | inl e ↦ simp (e, hear) (Keeps-refl x)
  | inr (c, e) ↦ simp (e, hear) (heard c)
]
  where
    heard : (c : HeartbeatClient) → Keeps x (with_client x (read_message now whole c)).0
    heard c = record { name = refl; machine = λ h. h }

pub receive_heartbeat-KeepsAll :
    (now : ℕ) (whole : Bool) (fd : Fd) (xs : List Monitored)
    → KeepsAll xs (receive_heartbeat now whole fd xs).0
unfolding receive_heartbeat
receive_heartbeat-KeepsAll now whole fd [] = tt
receive_heartbeat-KeepsAll now whole fd (x ∷ xs) = elim (Bool-cases (beats_on fd x.hbc)) [
  | inl e ↦ rw e (hear-Keeps now whole x, KeepsAll-refl xs)
  | inr e ↦ rw e (Keeps-refl x, receive_heartbeat-KeepsAll now whole fd xs)
]

module _ {ObjectId : Type 0} where
  pub answer_query-KeepsAll :
      (w : World ObjectId) (newsfd : ℕ) (name : Str) (xs : List Monitored)
      → KeepsAll xs (answer_query w newsfd name xs).0
  unfolding answer_query
  answer_query-KeepsAll w newsfd name [] = tt
  answer_query-KeepsAll w newsfd name (x ∷ xs) = elim (Bool-cases (str_eq x.name name)) [
    | inl e ↦ rw e (add_inform_list-Keeps w newsfd x, KeepsAll-refl xs)
    | inr e ↦ rw e (Keeps-refl x, answer_query-KeepsAll w newsfd name xs)
  ]

  replaced-some :
      (front back ys : List Monitored) (o : Option (Done ObjectId)) (n : Manager ObjectId)
      (es : List (Act ObjectId))
      → replaced front o back ≡ some (ys, n, es)
      → (d : Done ObjectId) × (o ≡ some d) × (ys ≡ front ++ (d.mon ∷ back))
  replaced-some front back ys none n es h = absurd (ground arith)
  replaced-some front back ys (some d) n es h = (d, refl, sym (ap (λ z. z.0) (some_injective h)))

  joined-some :
      (d : Done ObjectId) (o : Option (Services ObjectId)) (ys : List Monitored)
      (n : Manager ObjectId) (es : List (Act ObjectId))
      → joined d o ≡ some (ys, n, es)
      → (zs : List Monitored) × (fs : List (Act ObjectId)) × (o ≡ some (zs, n, fs))
        × (ys ≡ d.mon ∷ zs)
  joined-some d none ys n es h = absurd (ground arith)
  joined-some d (some (zs, n', fs)) ys n es h = (
    zs,
    fs,
    ap (λ z. some (zs, z.1, fs)) (some_injective h),
    sym (ap (λ z. z.0) (some_injective h)),
  )

module _ {ObjectId : Type 0} (id_eq : ObjectId → ObjectId → Bool) where
  pub recover_at-KeepsAll :
      (w : World ObjectId) (i : ℕ) (front xs ys : List Monitored) (m n : Manager ObjectId)
      (es : List (Act ObjectId))
      → recover_at id_eq w i front xs m ≡ some (ys, n, es)
      → KeepsAll (front ++ xs) ys
  unfolding recover_at
  recover_at-KeepsAll w i front [] ys m n es h = absurd (ground arith)
  recover_at-KeepsAll w zero front (x ∷ xs) ys m n es h =
      let (d, k, q) = replaced-some front xs ys _ n es h in
      subst (KeepsAll (front ++ (x ∷ xs))) (sym q) (
        KeepsAll-append front (x ∷ xs) front (d.mon ∷ xs) (KeepsAll-refl front)
          (start_recovery-Keeps id_eq w x m d k, KeepsAll-refl xs))
  recover_at-KeepsAll w (suc i) front (x ∷ xs) ys m n es h =
      subst (λ zs. KeepsAll zs ys) (append_assoc front (x ∷ []) xs)
        (recover_at-KeepsAll w i (front ++ (x ∷ [])) xs ys m n es h)

  expire_client-Keeps :
      (w : World ObjectId) (m : Manager ObjectId) (d e : Done ObjectId)
      → expire_client id_eq w m d ≡ some e
      → Keeps d.mon e.mon
  unfolding expire_client
  expire_client-Keeps w m d e h = elim (Option-cases d.mon.hbc) [
    | inl k ↦
        subst (λ (z : Done ObjectId). Keeps d.mon z.mon)
          (some_injective (rw (k, expire_client) at h)) (Keeps-refl d.mon)
    | inr (c, k) ↦ elim (Bool-cases (is_expired w.now (heartbeat_period * 2) c)) [
      | inl f ↦
          let (d', p, q) = preceded-some d.acts _ e (rw f at (rw (k, expire_client) at h)) in
          subst (Keeps d.mon) (sym q) (start_recovery-Keeps id_eq w d.mon m d' p)
      | inr f ↦
          subst (λ (z : Done ObjectId). Keeps d.mon z.mon)
            (some_injective (rw f at (rw (k, expire_client) at h))) (Keeps-refl d.mon)
    ]
  ]

  tick_service-Keeps :
      (w : World ObjectId) (informs : Bool) (x : Monitored) (m : Manager ObjectId)
      (d : Done ObjectId)
      → tick_service id_eq w informs x m ≡ some d
      → Keeps x d.mon
  unfolding tick_service
  tick_service-Keeps w true x m d h =
      let y = record x { psm = (check_timeout w.now 4000000 x.psm).0 } in
      Keeps-trans x _ d.mon (with_machine x _ (check_timeout_name w.now 4000000 x.psm))
        (Keeps-trans _ _ d.mon (inform_all-Keeps w _) (expire_client-Keeps w m _ d h))
  tick_service-Keeps w false x m d h =
      Keeps-trans x _ d.mon (with_machine x _ (check_timeout_name w.now 4000000 x.psm))
        (expire_client-Keeps w m _ d h)

  pub tick_services-KeepsAll :
      (w : ℕ → World ObjectId) (i : ℕ) (informs : Bool) (xs ys : List Monitored)
      (m n : Manager ObjectId) (es : List (Act ObjectId))
      → tick_services id_eq w i informs xs m ≡ some (ys, n, es)
      → KeepsAll xs ys
  unfolding tick_services
  tick_services-KeepsAll w i informs [] ys m n es h =
      subst (KeepsAll []) (ap (λ z. z.0) (some_injective h)) tt
  tick_services-KeepsAll w i informs (x ∷ xs) ys m n es h =
      elim (Option-cases (tick_service id_eq (w i) informs x m)) [
        | inl e ↦ absurd (ground (arith, rw (e, tick_services) at h))
        | inr (d, e) ↦
            let (zs, fs, k, q) = joined-some d _ ys n es (rw (e, tick_services) at h) in
            subst (KeepsAll (x ∷ xs)) (sym q) (
              tick_service-Keeps (w i) informs x m d e,
              tick_services-KeepsAll w (suc i) informs xs zs d.manager n fs k,
            )
      ]
