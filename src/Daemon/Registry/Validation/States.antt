-- ===== src/Daemon/Registry/Validation/States.antt =====
-- What the registry checks of a whole state, as a statement about the state.
use pithos.Prelude.{
  ℕ, ◌<◌, ◌≤◌, ◌≡◌, ◌↔◌, ◌⊎◌, inl, inr, ==→eq, refl, max, Bool, false, not, ◌||◌, ◌&&◌, some, List,
  [], ◌∷◌, All, length, ltb, leb, ◌==◌, arith,
}
use pithos.Format.Same.{same_bytes→eq, eq→same_bytes}
use pithos.AgentApi.{
  ok, ◌>>◌, bail_if, bind-inv, bail_if-ok, both-ok, ok_or, ok_or-some, ok-injective,
  resource_limit_error, bail_unless-ok,
}
use pithos.Daemon.Registry.{StoredJob, StorePolicy, PersistentState, internal, store_schema_version}
use pithos.Daemon.Registry.Maps.{get_key}
use pithos.Daemon.Registry.Identifiers.{idempotency_map_key}
use pithos.Daemon.Registry.Validation.{validate_job, validate_jobs, validate_index, validate_state}
use pithos.Daemon.Registry.Validation.Jobs.{IsStored, validate_job-IsStored, IsStored-validate_job}

-- A job of the map, with a number below the next one.
abbrev pub IsNumbered :
    StorePolicy → Bool → List (List ℕ × List ℕ) → ℕ → List ℕ × StoredJob → Type 0
IsNumbered policy enforce_retention idempotency next_job e =
    (number : ℕ) × (number < next_job)
    × IsStored policy enforce_retention idempotency e.0 e.1 number

-- An entry of the index leads to the job whose key it is.
abbrev pub LeadsBack : List (List ℕ × StoredJob) → List ℕ × List ℕ → Type 0
LeadsBack jobs e =
    (job : StoredJob) × (get_key jobs e.1 ≡ some job)
    × (e.0 ≡ idempotency_map_key job.owner job.idempotency_key)

pub record IsStore (policy : StorePolicy) (enforce_retention : Bool) (state : PersistentState)
    : Type 0 where
  pub schema : state.schema_version ≡ store_schema_version
  pub retained : (enforce_retention && ltb policy.max_retained_jobs (length state.jobs)) ≡ false
  pub counter : 0 < state.next_job
  pub counts : length state.idempotency ≡ length state.jobs
  pub jobs : All (IsNumbered policy enforce_retention state.idempotency state.next_job) state.jobs
  pub index : All (LeadsBack state.jobs) state.idempotency

validate_jobs_sound :
    (policy : StorePolicy) (enforce : Bool) (idempotency : List (List ℕ × List ℕ)) (next most : ℕ)
    (es : List (List ℕ × StoredJob)) {largest : ℕ}
    → validate_jobs policy enforce idempotency es most ≡ ok largest
    → (most ≤ largest) × (largest < next → All (IsNumbered policy enforce idempotency next) es)
unfolding validate_jobs
validate_jobs_sound policy enforce idempotency next most [] q =
    let e = ok-injective q in (omega arith, λ below. tt)
validate_jobs_sound policy enforce idempotency next most (e ∷ es) q =
    let (number, h, k) = bind-inv (validate_job policy enforce idempotency e.0 e.1) _ q in
    let (more, rest) = validate_jobs_sound policy enforce idempotency next (max most number) es k in
    (
      omega arith,
      λ below. (
        (number, omega arith, validate_job-IsStored policy enforce idempotency e.0 e.1 h),
        rest below,
      ),
    )

validate_jobs_complete :
    (policy : StorePolicy) (enforce : Bool) (idempotency : List (List ℕ × List ℕ)) (next most : ℕ)
    (es : List (List ℕ × StoredJob))
    → All (IsNumbered policy enforce idempotency next) es
    → (largest : ℕ) × (validate_jobs policy enforce idempotency es most ≡ ok largest)
      × (most < next → largest < next)
unfolding validate_jobs
validate_jobs_complete policy enforce idempotency next most [] h = (most, refl, λ below. below)
validate_jobs_complete policy enforce idempotency next most (e ∷ es)
      ((number, small, stored), rest) =
    let (largest, q, below) =
      validate_jobs_complete policy enforce idempotency next (max most number) es rest in
    (
      largest,
      rw (IsStored-validate_job policy enforce idempotency e.0 e.1 number stored) q,
      λ b. below (omega arith),
    )

validate_index_sound :
    (jobs : List (List ℕ × StoredJob)) (es : List (List ℕ × List ℕ))
    → validate_index jobs es ≡ ok tt
    → All (LeadsBack jobs) es
unfolding validate_index
validate_index_sound jobs [] q = tt
validate_index_sound jobs (e ∷ es) q =
    let (job, h, k) =
      bind-inv (ok_or (get_key jobs e.1) (internal "job store idempotency index is corrupt")) _ q in
    let (a, b) = both-ok _ _ k in
    (
      (
        job,
        ok_or-some _ _ h,
        same_bytes→eq e.0 (idempotency_map_key job.owner job.idempotency_key)
            (bail_unless-ok _ _ a),
      ),
      validate_index_sound jobs es b,
    )

validate_index_complete :
    (jobs : List (List ℕ × StoredJob)) (es : List (List ℕ × List ℕ))
    → All (LeadsBack jobs) es
    → validate_index jobs es ≡ ok tt
unfolding validate_index
validate_index_complete jobs [] h = refl
validate_index_complete jobs (e ∷ es) ((job, there, key), rest) =
    rw (there, eq→same_bytes e.0 (idempotency_map_key job.owner job.idempotency_key) key)
      (validate_index_complete jobs es rest)

no_jobs :
    (policy : StorePolicy) (enforce : Bool) (idempotency : List (List ℕ × List ℕ)) (next : ℕ)
    (es : List (List ℕ × StoredJob))
    → length es ≡ 0
    → All (IsNumbered policy enforce idempotency next) es
no_jobs policy enforce idempotency next [] h = tt
no_jobs policy enforce idempotency next (e ∷ es) h = absurd (omega arith)

counted :
    (next index jobs : ℕ) → (next == 0 || not (index == jobs)) ≡ false → (0 < next) × (index ≡ jobs)
counted next index jobs h = ground arith

counters_fine :
    (next index jobs : ℕ) → 0 < next → index ≡ jobs → (next == 0 || not (index == jobs)) ≡ false
counters_fine next index jobs h k = ground arith

above :
    (jobs next largest : ℕ)
    → (not (jobs == 0) && leb next largest) ≡ false
    → (jobs ≡ 0) ⊎ (largest < next)
above jobs next largest h = ground arith

below_leb : (next largest : ℕ) → largest < next → leb next largest ≡ false
below_leb next largest h = ground arith

and_false : (a b : Bool) → b ≡ false → (a && b) ≡ false
and_false a b h = ground arith

pub validate_state-IsStore :
    (state : PersistentState) (policy : StorePolicy) (enforce_retention : Bool)
    → validate_state state policy enforce_retention ≡ ok tt
    → IsStore policy enforce_retention state
unfolding validate_state
validate_state-IsStore state policy enforce q =
    let version =
      bail_if (not (state.schema_version == store_schema_version))
        (internal "unsupported job store schema") in
    let capacity =
      bail_if (enforce && ltb policy.max_retained_jobs (length state.jobs))
        (resource_limit_error "job store retention capacity exceeded") in
    let counters =
      bail_if (state.next_job == 0 || not (length state.idempotency == length state.jobs))
        (internal "job store counters or indices are corrupt") in
    let (u, abc, q1) = bind-inv (version >> capacity >> counters) _ q in
    let (ab, c) = both-ok (version >> capacity) counters abc in
    let (a, b) = both-ok version capacity ab in
    let (largest, d, q2) =
      bind-inv (validate_jobs policy enforce state.idempotency state.jobs 0) _ q1 in
    let (e, f) =
      both-ok
        (bail_if (not (length state.jobs == 0) && leb state.next_job largest)
          (internal "job store next-job counter is corrupt"))
        (validate_index state.jobs state.idempotency) q2 in
    let (more, jobs) =
      validate_jobs_sound policy enforce state.idempotency state.next_job 0 state.jobs d in
    let (counter, counts) =
      counted state.next_job (length state.idempotency) (length state.jobs) (bail_if-ok _ _ c) in
    record {
      schema = ==→eq state.schema_version store_schema_version (bail_unless-ok _ _ a);
      retained = bail_if-ok _ _ b;
      counter = counter;
      counts = counts;
      jobs = elim (above (length state.jobs) state.next_job largest (bail_if-ok _ _ e)) [
        | inl empty ↦ no_jobs policy enforce state.idempotency state.next_job state.jobs empty
        | inr below ↦ jobs below
      ];
      index = validate_index_sound state.jobs state.idempotency f;
    }

pub IsStore-validate_state :
    (state : PersistentState) (policy : StorePolicy) (enforce_retention : Bool)
    → IsStore policy enforce_retention state
    → validate_state state policy enforce_retention ≡ ok tt
unfolding validate_state
IsStore-validate_state state policy enforce s =
    let (largest, q, below) =
      validate_jobs_complete policy enforce state.idempotency state.next_job 0 state.jobs s.jobs in
    let small : leb state.next_job largest ≡ false =
      below_leb state.next_job largest (below s.counter) in
    let version : not (state.schema_version == store_schema_version) ≡ false = rw s.schema refl in
    let counters : (state.next_job == 0 || not (length state.idempotency == length state.jobs))
        ≡ false =
      counters_fine state.next_job (length state.idempotency) (length state.jobs) s.counter
        s.counts in
    let numbers : (not (length state.jobs == 0) && leb state.next_job largest) ≡ false =
      and_false (not (length state.jobs == 0)) (leb state.next_job largest) small in
    rw (version, s.retained, counters, q, numbers)
      (validate_index_complete state.jobs state.idempotency s.index)

-- The check of a state accepts exactly the consistent states: of the schema version, with no more
-- jobs than are retained where that is enforced, as many index entries as jobs, every job stored
-- under its identifier with a number below the next one, of a well-formed owner and key, of the method
-- of its operation and of limits that are not zero, found under its idempotency key, with a rising
-- history that ends in its state, with a result or an error as the state wants them, and with no
-- marker or one of the job, of its output, not before the start, and with an archive only where the
-- output was absent; and every index entry leads to the job of its key.
pub validate_state_iff :
    (state : PersistentState) (policy : StorePolicy) (enforce_retention : Bool)
    → (validate_state state policy enforce_retention ≡ ok tt)
      ↔ IsStore policy enforce_retention state
validate_state_iff state policy enforce =
    (validate_state-IsStore state policy enforce, IsStore-validate_state state policy enforce)
