-- ===== src/AgentApi/Methods.antt =====
-- crates/pithos-agent-api/src/lib.rs: `RpcMethod`, its names and the search for one.
use pithos.Prelude.{
  ℕ, ◌≡◌, refl, subst, inl, inr, Bool-cases, from_else, Option, none, some, List, [], ◌∷◌,
  if◌then◌else◌,
}
use pithos.Format.Same.{same_bytes, same_bytes→eq}

pub data RpcMethod : Type 0 where
  capabilities estimate pack unpack list inspect : RpcMethod
  extract read_range verify cancel job_status subscribe_events : RpcMethod

-- The bytes of the names.
unfoldable pub as_str : RpcMethod → List ℕ
as_str capabilities = 99 ∷ 97 ∷ 112 ∷ 97 ∷ 98 ∷ 105 ∷ 108 ∷ 105 ∷ 116 ∷ 105 ∷ 101 ∷ 115 ∷ []
as_str estimate = 101 ∷ 115 ∷ 116 ∷ 105 ∷ 109 ∷ 97 ∷ 116 ∷ 101 ∷ []
as_str pack = 112 ∷ 97 ∷ 99 ∷ 107 ∷ []
as_str unpack = 117 ∷ 110 ∷ 112 ∷ 97 ∷ 99 ∷ 107 ∷ []
as_str list = 108 ∷ 105 ∷ 115 ∷ 116 ∷ []
as_str inspect = 105 ∷ 110 ∷ 115 ∷ 112 ∷ 101 ∷ 99 ∷ 116 ∷ []
as_str extract = 101 ∷ 120 ∷ 116 ∷ 114 ∷ 97 ∷ 99 ∷ 116 ∷ []
as_str read_range = 114 ∷ 101 ∷ 97 ∷ 100 ∷ 95 ∷ 114 ∷ 97 ∷ 110 ∷ 103 ∷ 101 ∷ []
as_str verify = 118 ∷ 101 ∷ 114 ∷ 105 ∷ 102 ∷ 121 ∷ []
as_str cancel = 99 ∷ 97 ∷ 110 ∷ 99 ∷ 101 ∷ 108 ∷ []
as_str job_status = 106 ∷ 111 ∷ 98 ∷ 95 ∷ 115 ∷ 116 ∷ 97 ∷ 116 ∷ 117 ∷ 115 ∷ []
as_str subscribe_events =
    115 ∷ 117 ∷ 98 ∷ 115 ∷ 99 ∷ 114 ∷ 105 ∷ 98 ∷ 101 ∷ 95 ∷ 101 ∷ 118 ∷ 101 ∷ 110 ∷ 116 ∷ 115 ∷ []

abbrev pub all_methods : List RpcMethod
all_methods =
    capabilities ∷ estimate ∷ pack ∷ unpack ∷ list ∷ inspect ∷ extract ∷ read_range ∷ verify
    ∷ cancel ∷ job_status ∷ subscribe_events ∷ []

-- `methods.into_iter().find(|method| method.as_str() == value)`
unfoldable pub find_method : List RpcMethod → List ℕ → Option RpcMethod
find_method [] value = none
find_method (method ∷ methods) value =
    if same_bytes (as_str method) value then some method else find_method methods value

-- `RpcMethod::from_str`, whose error holds nothing.
unfoldable pub from_str : List ℕ → Option RpcMethod
from_str value = find_method all_methods value

some_inj : {m m' : RpcMethod} → some m ≡ some m' → m ≡ m'
some_inj q = cc

found :
    (methods : List RpcMethod) (value : List ℕ) {method : RpcMethod}
    → find_method methods value ≡ some method
    → as_str method ≡ value
unfolding find_method
found [] value q = cc
found (m ∷ ms) value {method} q = elim (Bool-cases (same_bytes (as_str m) value)) [
  | inl hit ↦
      let here : some m ≡ some method = rw hit at q in
      subst (λ x. as_str x ≡ value) (some_inj here) (same_bytes→eq (as_str m) value hit)
  | inr miss ↦ found ms value (from_else (same_bytes (as_str m) value) (some m) miss q)
]

pub as_str-from_str :
    (value : List ℕ) {method : RpcMethod} → from_str value ≡ some method → as_str method ≡ value
unfolding from_str
as_str-from_str value q = found all_methods value q

pub from_str-as_str : (method : RpcMethod) → from_str (as_str method) ≡ some method
unfolding from_str find_method as_str same_bytes
from_str-as_str capabilities = refl
from_str-as_str estimate = refl
from_str-as_str pack = refl
from_str-as_str unpack = refl
from_str-as_str list = refl
from_str-as_str inspect = refl
from_str-as_str extract = refl
from_str-as_str read_range = refl
from_str-as_str verify = refl
from_str-as_str cancel = refl
from_str-as_str job_status = refl
from_str-as_str subscribe_events = refl
