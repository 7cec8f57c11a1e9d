-- ===== src/Broker/Types.antt =====
-- enum ObjectType and the table `typestring` of src/recovery/brokerobject.cpp.
use qpidrecovery.Base.{◌≡◌, ◌↔◌, refl, Bool, true, false, List, [], ◌∷◌, arith, if◌then◌else◌}
use qpidrecovery.Text.{Str, codes, str_eq, strcmp, str_eq_iff}

pub data ObjectType : Type 0 where
  obj_broker obj_link obj_exchange obj_queue obj_binding obj_bridge : ObjectType
  number_of_obj_types obj_unknown : ObjectType

abbrev pub type_eq : ObjectType → ObjectType → Bool
type_eq obj_broker obj_broker = true
type_eq obj_link obj_link = true
type_eq obj_exchange obj_exchange = true
type_eq obj_queue obj_queue = true
type_eq obj_binding obj_binding = true
type_eq obj_bridge obj_bridge = true
type_eq number_of_obj_types number_of_obj_types = true
type_eq obj_unknown obj_unknown = true
type_eq _ _ = false

abbrev pub typestring : List (ObjectType × Str)
typestring =
    (obj_broker, codes "broker")
    ∷ (obj_link, codes "link")
    ∷ (obj_exchange, codes "exchange")
    ∷ (obj_queue, codes "queue")
    ∷ (obj_binding, codes "binding")
    ∷ (obj_bridge, codes "bridge")
    ∷ []

unfoldable pub string_of : ObjectType → List (ObjectType × Str) → Str
string_of ty [] = []
string_of ty ((t, s) ∷ rows) = if type_eq t ty then s else string_of ty rows

unfoldable pub object_type_to_string : ObjectType → Str
object_type_to_string ty = string_of ty typestring

unfoldable pub type_of : Str → List (ObjectType × Str) → ObjectType
type_of st [] = obj_unknown
type_of st ((t, s) ∷ rows) = if str_eq st s then t else type_of st rows

unfoldable pub object_string_to_type : Str → ObjectType
object_string_to_type st = type_of st typestring

-- The types that a class name stands for.
abbrev pub IsNamed : ObjectType → Type 0
IsNamed number_of_obj_types = ⊥
IsNamed obj_unknown = ⊥
IsNamed _ = Unit

type_of_string :
    (ty : ObjectType) → IsNamed ty → object_string_to_type (object_type_to_string ty) ≡ ty
unfolding object_string_to_type object_type_to_string type_of string_of str_eq strcmp
type_of_string obj_broker h = refl
type_of_string number_of_obj_types h = absurd h
type_of_string obj_unknown h = absurd h
type_of_string _ h = refl

string_of_type :
    (st : Str) (ty : ObjectType)
    → IsNamed ty
    → object_string_to_type st ≡ ty
    → st ≡ object_type_to_string ty
unfolding object_string_to_type object_type_to_string type_of string_of
string_of_type st ty n h = ground (
  arith,
  (str_eq_iff st (codes "broker")).0,
  (str_eq_iff st (codes "link")).0,
  (str_eq_iff st (codes "exchange")).0,
  (str_eq_iff st (codes "queue")).0,
  (str_eq_iff st (codes "binding")).0,
  (str_eq_iff st (codes "bridge")).0,
)

-- A string is read as one of the six types exactly if it is the string that the type is written as.
pub object_string_to_type_iff :
    (st : Str) (ty : ObjectType)
    → IsNamed ty
    → (object_string_to_type st ≡ ty) ↔ (st ≡ object_type_to_string ty)
object_string_to_type_iff st ty n = (string_of_type st ty n, λ e. rw e (type_of_string ty n))
