-- ===== src/Daemon/Registry/Validation/Equalities.antt =====
-- `==` of the enumerations, by their numbers.
use pithos.Prelude.{ℕ, ◌≡◌, refl, sym, ap, ◌∙◌, true, Option, some, [], ◌∷◌, get_elem?, arith}
use pithos.AgentApi.Methods.{
  RpcMethod, capabilities, estimate, pack, unpack, list, inspect, extract, read_range, verify,
  cancel, job_status, subscribe_events, all_methods,
}
use pithos.AgentApi.Jobs.{ApiJobState, queued, running, cancelling, completed, failed, cancelled}
use pithos.Daemon.Registry.Validation.{state_number, same_state, method_number, same_method}

state_at : ℕ → Option ApiJobState
state_at n = get_elem? (queued ∷ running ∷ cancelling ∷ completed ∷ failed ∷ cancelled ∷ []) n

state_at-state_number : (s : ApiJobState) → state_at (state_number s) ≡ some s
unfolding state_at
state_at-state_number queued = refl
state_at-state_number running = refl
state_at-state_number cancelling = refl
state_at-state_number completed = refl
state_at-state_number failed = refl
state_at-state_number cancelled = refl

pub some-injective {ℓ} : {A : Type ℓ} {a b : A} → some a ≡ some b → a ≡ b
some-injective q = cc

pub same_state→eq : (a b : ApiJobState) → same_state a b ≡ true → a ≡ b
unfolding same_state
same_state→eq a b h =
    let e : state_number a ≡ state_number b = ground arith in
    some-injective (sym (state_at-state_number a) ∙ ap state_at e ∙ state_at-state_number b)

pub same_state_refl : (a b : ApiJobState) → a ≡ b → same_state a b ≡ true
unfolding same_state
same_state_refl a b e = let n = ap state_number e in ground arith

method_at-method_number : (m : RpcMethod) → get_elem? all_methods (method_number m) ≡ some m
method_at-method_number capabilities = refl
method_at-method_number estimate = refl
method_at-method_number pack = refl
method_at-method_number unpack = refl
method_at-method_number list = refl
method_at-method_number inspect = refl
method_at-method_number extract = refl
method_at-method_number read_range = refl
method_at-method_number verify = refl
method_at-method_number cancel = refl
method_at-method_number job_status = refl
method_at-method_number subscribe_events = refl

pub same_method→eq : (a b : RpcMethod) → same_method a b ≡ true → a ≡ b
unfolding same_method
same_method→eq a b h =
    let e : method_number a ≡ method_number b = ground arith in
    some-injective
      (sym (method_at-method_number a) ∙ ap (get_elem? all_methods) e ∙ method_at-method_number b)

pub same_method_refl : (a b : RpcMethod) → a ≡ b → same_method a b ≡ true
unfolding same_method
same_method_refl a b e = let n = ap method_number e in ground arith
