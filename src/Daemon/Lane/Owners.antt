-- ===== src/Daemon/Lane/Owners.antt =====
-- The owners of a lane: in its order, and as the keys of its map.
use pithos.Prelude.{
  ℕ, ◌<◌, ◌≡◌, refl, sym, ap, subst, ◌∙◌, inl, inr, Bool, true, false, not, ◌||◌, ◌&&◌, some, List,
  [], ◌∷◌, ◌++◌, arith, All, length, Bool-cases,
}
use pithos.Format.Same.{same_bytes, same_bytes→eq, eq→same_bytes}
use pithos.Daemon.Lane.{
  ScheduledJob, Session, contains_key, get_queue, set_queue, remove_session, push_job,
}

abbrev pub in_order : List (List ℕ) → List ℕ → Bool
in_order [] owner = false
in_order (o ∷ os) owner = same_bytes o owner || in_order os owner

abbrev pub AreDistinct : List (List ℕ) → Type 0
AreDistinct [] = Unit
AreDistinct (o ∷ os) = (in_order os o ≡ false) × AreDistinct os

abbrev pub HaveDistinctOwners : List Session → Type 0
HaveDistinctOwners [] = Unit
HaveDistinctOwners (s ∷ ss) = (contains_key ss s.owner ≡ false) × HaveDistinctOwners ss

abbrev pub HasJob : Session → Type 0
HasJob s = 0 < length s.queue

-- Two byte strings that equal a third one.
same_both : (a b c : List ℕ) → same_bytes a b ≡ true → same_bytes a c ≡ same_bytes b c
same_both a b c h = ap (λ x. same_bytes x c) (same_bytes→eq a b h)

same_swap : (a b : List ℕ) → same_bytes a b ≡ true → same_bytes b a ≡ true
same_swap a b h = eq→same_bytes b a (sym (same_bytes→eq a b h))

some_job :
    (queue : List ScheduledJob)
    → 0 < length queue
    → (job : ScheduledJob) × (rest : List ScheduledJob) × (queue ≡ job ∷ rest)
some_job [] h = absurd (omega arith)
some_job (job ∷ rest) h = (job, rest, refl)

pub and_true : (b : Bool) → b ≡ (b && true)
and_true true = refl
and_true false = refl

pub found_queue :
    (ss : List Session) (owner : List ℕ)
    → All HasJob ss
    → contains_key ss owner ≡ true
    → (job : ScheduledJob) × (queue : List ScheduledJob) × (get_queue ss owner ≡ some (job ∷ queue))
unfolding contains_key get_queue
found_queue [] owner h c = cc
found_queue (s ∷ ss) owner h c = elim (Bool-cases (same_bytes s.owner owner)) [
  | inl hit ↦ let (job, queue, q) = some_job s.queue h.0 in (job, queue, rw (hit, q) refl)
  | inr miss ↦
      let (job, queue, q) = found_queue ss owner h.1 (rw miss at c) in (job, queue, rw miss q)
]

-- Without its first owner, the order holds the owners but that one.
pub in_order-tail :
    (o : List ℕ) (os : List (List ℕ)) (x : List ℕ)
    → in_order os o ≡ false
    → in_order os x ≡ (in_order (o ∷ os) x && not (same_bytes o x))
in_order-tail o os x fresh = elim (Bool-cases (same_bytes o x)) [
  | inl hit ↦
      let gone : in_order os x ≡ false =
        subst (λ y. in_order os y ≡ false) (same_bytes→eq o x hit) fresh in
      rw (hit, gone) refl
  | inr miss ↦ rw miss (and_true (in_order os x))
]

pub or_false : (b : Bool) → (b || false) ≡ b
or_false true = refl
or_false false = refl

or_again : (a b : Bool) → (a || b) ≡ ((a || b) || a)
or_again true b = refl
or_again false true = refl
or_again false false = refl

or_assoc : (a b c : Bool) → (a || (b || c)) ≡ ((a || b) || c)
or_assoc true b c = refl
or_assoc false b c = refl

pub neither : (a b : Bool) → a ≡ false → b ≡ false → (a || b) ≡ false
neither a b h k = rw (h, k) refl

both_false : (a b : Bool) → (a || b) ≡ false → (a ≡ false) × (b ≡ false)
both_false true b h = cc
both_false false b h = (refl, h)

pub not_swapped : (a b : List ℕ) → same_bytes a b ≡ false → same_bytes b a ≡ false
not_swapped a b h = elim (Bool-cases (same_bytes b a)) [
  | inl hit ↦ let swapped = same_swap b a hit in cc
  | inr miss ↦ miss
]

spread : (a c b : Bool) → (a ≡ true → b ≡ false) → (a || (c && not b)) ≡ ((a || c) && not b)
spread true c b h = rw (h refl) refl
spread false c b h = refl

apart_owners :
    (a o x : List ℕ) → same_bytes a o ≡ false → same_bytes a x ≡ true → same_bytes o x ≡ false
apart_owners a o x miss hit = elim (Bool-cases (same_bytes o x)) [
  | inl both ↦
      let same : a ≡ o = same_bytes→eq a x hit ∙ sym (same_bytes→eq o x both) in
      let again = eq→same_bytes a o same in cc
  | inr apart ↦ apart
]

and_false : (b : Bool) → (b && false) ≡ false
and_false true = refl
and_false false = refl

without_first :
    (s : Session) (ss : List Session) (o x : List ℕ)
    → contains_key ss s.owner ≡ false
    → same_bytes s.owner o ≡ true
    → contains_key ss x ≡ ((same_bytes s.owner x || contains_key ss x) && not (same_bytes o x))
without_first s ss o x fresh hit = elim (Bool-cases (same_bytes o x)) [
  | inl both ↦
      let same : s.owner ≡ x = same_bytes→eq s.owner o hit ∙ same_bytes→eq o x both in
      let gone : contains_key ss x ≡ false = subst (λ y. contains_key ss y ≡ false) same fresh in
      rw (both, gone) (sym (and_false (same_bytes s.owner x || false)))
  | inr apart ↦
      let unlike : same_bytes s.owner x ≡ false = same_both s.owner o x hit ∙ apart in
      rw (apart, unlike) (and_true (contains_key ss x))
]

pub contains_key-remove_session :
    (ss : List Session) (o x : List ℕ)
    → HaveDistinctOwners ss
    → contains_key (remove_session ss o) x ≡ (contains_key ss x && not (same_bytes o x))
unfolding contains_key remove_session
contains_key-remove_session [] o x d = refl
contains_key-remove_session (s ∷ ss) o x d = elim (Bool-cases (same_bytes s.owner o)) [
  | inl hit ↦ rw hit (without_first s ss o x d.0 hit)
  | inr miss ↦
      let ih = contains_key-remove_session ss o x d.1 in
      rw (miss, ih)
        (spread (same_bytes s.owner x) (contains_key ss x) (same_bytes o x)
          (apart_owners s.owner o x miss))
]

pub set_queue-contains_key :
    (ss : List Session) (o x : List ℕ) (queue : List ScheduledJob)
    → contains_key (set_queue ss o queue) x ≡ contains_key ss x
unfolding contains_key set_queue
set_queue-contains_key [] o x queue = refl
set_queue-contains_key (s ∷ ss) o x queue = elim (Bool-cases (same_bytes s.owner o)) [
  | inl hit ↦ rw hit refl
  | inr miss ↦ let ih = set_queue-contains_key ss o x queue in rw (miss, ih) refl
]

pub push_job-contains_key :
    (ss : List Session) (o x : List ℕ) (job : ScheduledJob)
    → contains_key (push_job ss o job) x ≡ (contains_key ss x || same_bytes o x)
unfolding contains_key push_job
push_job-contains_key [] o x job = or_false (same_bytes o x)
push_job-contains_key (s ∷ ss) o x job = elim (Bool-cases (same_bytes s.owner o)) [
  | inl hit ↦
      rw (hit, sym (same_both s.owner o x hit))
        (or_again (same_bytes s.owner x) (contains_key ss x))
  | inr miss ↦
      let ih = push_job-contains_key ss o x job in
      rw (miss, ih) (or_assoc (same_bytes s.owner x) (contains_key ss x) (same_bytes o x))
]

pub in_order-append :
    (os : List (List ℕ)) (o x : List ℕ)
    → in_order (os ++ (o ∷ [])) x ≡ (in_order os x || same_bytes o x)
in_order-append [] o x = or_false (same_bytes o x)
in_order-append (a ∷ os) o x =
    let ih = in_order-append os o x in
    rw ih (or_assoc (same_bytes a x) (in_order os x) (same_bytes o x))

pub AreDistinct-append :
    (os : List (List ℕ)) (o : List ℕ)
    → AreDistinct os
    → in_order os o ≡ false
    → AreDistinct (os ++ (o ∷ []))
AreDistinct-append [] o d fresh = (refl, tt)
AreDistinct-append (a ∷ os) o d fresh =
    let (not_first, later) = both_false (same_bytes a o) (in_order os o) fresh in
    let unlike : same_bytes o a ≡ false = not_swapped a o not_first in
    (
      in_order-append os o a ∙ neither (in_order os a) (same_bytes o a) d.0 unlike,
      AreDistinct-append os o d.1 later,
    )
