-- ===== src/Services/Copied.antt =====
-- Whether the objects of a failed broker are copied among what a call does.
pub mod Message
use qpidrecovery.Base.{
  ℕ, ◌≡◌, refl, ◌∙◌, Bool, true, false, ◌||◌, none, some, List, [], ◌∷◌, ◌++◌, arith,
}
use qpidrecovery.Text.{Str}
use qpidrecovery.Address.{BrokerAddress}
use qpidrecovery.Paxos.Message.{Effect}
use qpidrecovery.Broker.Info.{Object}
use qpidrecovery.Recovery.Copy.{Action, copy_objects, copy_objects_thread}
use qpidrecovery.Recovery.Store.{Store}
use qpidrecovery.Services.{
  Monitored, Act, does, replied, closed, copied, queried, rerouted, World, acts_of, inform_acts,
}

module _ {ObjectId : Type 0} where
  -- The objects of a failed broker are copied: copyObjects goes through its rounds. (It does not where
  -- the backup does not show exactly one broker object.)
  unfoldable pub has_copied : List (Act ObjectId) → Bool
  has_copied [] = false
  has_copied (copied fail backup (some calls) ∷ es) = true
  has_copied (copied fail backup none ∷ es) = has_copied es
  has_copied (does e ∷ es) = has_copied es
  has_copied (replied fd n ip port ∷ es) = has_copied es
  has_copied (closed fd ∷ es) = has_copied es
  has_copied (queried fd n ∷ es) = has_copied es
  has_copied (rerouted calls ∷ es) = has_copied es

  pub has_copied-append :
      (xs ys : List (Act ObjectId)) → has_copied (xs ++ ys) ≡ (has_copied xs || has_copied ys)
  unfolding has_copied
  has_copied-append [] ys = refl
  has_copied-append (copied fail backup (some calls) ∷ es) ys = refl
  has_copied-append (copied fail backup none ∷ es) ys = has_copied-append es ys
  has_copied-append (does e ∷ es) ys = has_copied-append es ys
  has_copied-append (replied fd n ip port ∷ es) ys = has_copied-append es ys
  has_copied-append (closed fd ∷ es) ys = has_copied-append es ys
  has_copied-append (queried fd n ∷ es) ys = has_copied-append es ys
  has_copied-append (rerouted calls ∷ es) ys = has_copied-append es ys

  pub copied_neither :
      (xs ys : List (Act ObjectId))
      → has_copied xs ≡ false
      → has_copied ys ≡ false
      → has_copied (xs ++ ys) ≡ false
  copied_neither xs ys h k = has_copied-append xs ys ∙ ground arith

  pub has_copied-inform_acts :
      (w : World ObjectId) (mon : Monitored) (fds : List ℕ)
      → has_copied (inform_acts w mon fds) ≡ false
  unfolding has_copied inform_acts
  has_copied-inform_acts w mon [] = refl
  has_copied-inform_acts w mon (fd ∷ fds) = ground (arith, has_copied-inform_acts w mon fds)

pub has_copied-acts_of :
    (ObjectId : Type 0) (es : List Effect) → has_copied (acts_of {ObjectId = ObjectId} es) ≡ false
unfolding has_copied
has_copied-acts_of ObjectId [] = refl
has_copied-acts_of ObjectId (e ∷ es) = has_copied-acts_of ObjectId es

pub has_copied-among :
    {ObjectId : Type 0} (pre : List (Act ObjectId)) (fail backup : BrokerAddress)
    (calls : List (Action ObjectId)) (post : List (Act ObjectId))
    → has_copied (pre ++ (copied fail backup (some calls) ∷ post)) ≡ true
unfolding has_copied
has_copied-among pre fail backup calls post =
    has_copied-append pre (copied fail backup (some calls) ∷ post) ∙ ground arith

-- What the backup broker shows is exactly one broker object.
abbrev pub shows_one : {ObjectId : Type 0} → List (Object ObjectId) → Bool
shows_one [] = false
shows_one (o ∷ []) = true
shows_one (o ∷ p ∷ os) = false

module _ {ObjectId : Type 0} (id_eq : ObjectId → ObjectId → Bool) (down : Str → Bool)
    (linkobjs : List (Object ObjectId)) (fail backup : BrokerAddress) (s : Store ObjectId) where
  pub copy_objects-one :
      (os : List (Object ObjectId)) (o : Object ObjectId)
      → os ≡ o ∷ []
      → (calls : List (Action ObjectId)) × (copy_objects id_eq down os linkobjs fail backup s
          ≡ some calls)
  unfolding copy_objects copy_objects_thread
  copy_objects-one [] o h = absurd (ground arith)
  copy_objects-one (p ∷ []) o h = (_, refl)
  copy_objects-one (p ∷ q ∷ os) o h = absurd (ground arith)

  pub has_copied-copied :
      (os : List (Object ObjectId)) (es : List (Act ObjectId))
      → has_copied es ≡ false
      → has_copied (copied fail backup (copy_objects id_eq down os linkobjs fail backup s) ∷ es)
        ≡ shows_one os
  unfolding has_copied copy_objects copy_objects_thread
  has_copied-copied [] es h = h
  has_copied-copied (o ∷ []) es h = refl
  has_copied-copied (o ∷ p ∷ os) es h = h
