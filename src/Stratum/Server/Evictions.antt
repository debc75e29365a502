-- ===== src/Stratum/Server/Evictions.antt =====
-- The jobs that the server remembers, and those that it forgets.
use mathlib.Core.Path.{subst}
use qday_pool.Prelude.{
  ◌≤◌, ◌≡◌, refl, Bool, true, false, ◌||◌, Option, none, some, List, [], ◌∷◌, ltb, any, ◌++◌, Text,
  text_eq, length, if◌then◌else◌, arith, Bool-cases, inl, inr, ap, sym, ◌∙◌,
}
use qday_pool.Stratum.Clients.Jobs.{IsJob}
use qday_pool.Stratum.Work.{Job}
use qday_pool.Stratum.Server.{Server, forget, set_job, evict, remember, max_remembered_jobs}
use qday_pool.Stratum.Server.Net.{IsServer}

any-append : (p : Text → Bool) (xs : List Text) (y : Text) → any p (xs ++ y ∷ []) ≡ any p xs || p y
any-append p [] y = ground arith
any-append p (x ∷ xs) y = ground (arith, any-append p xs y)

or_false : (a b : Bool) → (a || b) ≡ false → (a ≡ false) × (b ≡ false)
or_false false b h = (refl, h)
or_false true b h = cc

job_of : {i j : Job} → some j ≡ some i → j ≡ i
job_of h = ground (arith, h)

forget_absent :
    (id k : Text) (order : List Text) (jobs : Text → Option Job)
    → any (λ x. text_eq x k) order ≡ false
    → (any (λ x. text_eq x k) (id ∷ order) ≡ false → jobs k ≡ none)
    → forget id jobs k ≡ none
forget_absent id k order jobs absent h = elim (Bool-cases (text_eq id k)) [
  | inl here ↦ rw here refl
  | inr other ↦ rw other (h (rw other absent))
]

set_absent :
    (j : Job) (k : Text) (s : Server)
    → any (λ x. text_eq x k) (s.job_order ++ j.id ∷ []) ≡ false
    → (any (λ x. text_eq x k) s.job_order ≡ false → s.jobs k ≡ none)
    → set_job j.id j s.jobs k ≡ none
set_absent j k s absent h =
    let split = sym (any-append (λ x. text_eq x k) s.job_order j.id) ∙ absent in
    let (first, last) = or_false (any (λ x. text_eq x k) s.job_order) (text_eq j.id k) split in
    rw last (h first)

set_made :
    (j i : Job) (k : Text) (s : Server)
    → IsJob s.cfg j
    → set_job j.id j s.jobs k ≡ some i
    → (s.jobs k ≡ some i → IsJob s.cfg i)
    → IsJob s.cfg i
set_made j i k s job found h = elim (Bool-cases (text_eq j.id k)) [
  | inl here ↦
      subst (IsJob s.cfg) (job_of (ap (λ b. if b then some j else s.jobs k) (sym here) ∙ found)) job
  | inr other ↦ h (ap (λ b. if b then some j else s.jobs k) (sym other) ∙ found)
]

-- What `evict` keeps of the jobs.
pub record IsEvicted (jobs : Text → Option Job) (r : List Text × (Text → Option Job)) : Type 0 where
  pub short : length r.0 ≤ max_remembered_jobs
  pub listed : (k : Text) → any (λ x. text_eq x k) r.0 ≡ false → r.1 k ≡ none
  pub from : (k : Text) (j : Job) → r.1 k ≡ some j → jobs k ≡ some j

forgotten :
    (id k : Text) (jobs : Text → Option Job) (j : Job) → forget id jobs k ≡ some j → jobs k ≡ some j
forgotten id k jobs j h = ground arith

evict-IsEvicted :
    (order : List Text) (jobs : Text → Option Job)
    → ((k : Text) → any (λ x. text_eq x k) order ≡ false → jobs k ≡ none)
    → IsEvicted jobs (evict order jobs)
unfolding evict
evict-IsEvicted [] jobs h = record { short = omega arith; listed = h; from = λ k j e. e }
evict-IsEvicted (id ∷ order) jobs h =
    elim (Bool-cases (ltb max_remembered_jobs (length (id ∷ order)))) [
      | inr short ↦
          rw (short, evict)
            (record { short = ground (arith, short); listed = h; from = λ k j e. e })
      | inl long ↦
          let e =
            evict-IsEvicted order (forget id jobs)
              (λ k absent. forget_absent id k order jobs absent (h k)) in
          rw (long, evict)
            (record {
              short = e.short;
              listed = e.listed;
              from = λ k j found. forgotten id k jobs j (e.from k j found);
            })
    ]

pub remember-IsServer :
    (j : Job) (s : Server) → IsJob s.cfg j → IsServer s → IsServer (remember j s)
unfolding remember
remember-IsServer j s job g =
    let jobs = set_job j.id j s.jobs in
    let e =
      evict-IsEvicted (s.job_order ++ j.id ∷ []) jobs
        (λ k absent. set_absent j k s absent (g.listed k)) in
    record {
      range = g.range;
      initial = g.initial;
      good = g.good;
      made = λ k i found. set_made j i k s job (e.from k i found) (g.made k i);
      listed = e.listed;
      remembered = e.short;
      numbered = g.numbered;
      counted = g.counted;
      limited = g.limited;
      shared = g.shared;
    }
