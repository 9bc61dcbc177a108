-- ===== src/Kubernetes/Jobs/Fencing.antt =====
-- The worker stops only the execution that it observed.
use oz_agent_worker.Prelude.{
  if◌then◌else◌, ℕ, ◌≤◌, ◌≡◌, refl, List, [], ◌∷◌, ◌++◌, length, length-append, String, string_eq,
  ◌==◌, eq_of_beq, Bool-cases, inl, inr, arith,
}
use oz_agent_worker.Kubernetes.Jobs.{
  Job, Disposition, not_found, conflict, transient, other, Answer, answer, refused, Request, expire,
  delete_job, Outcome, api_error, Attempt, is_finished, expire_current, expire_abandoned_job,
  is_retried, retry_expire, request_job_execution_stop,
}

-- Each request is the expiry of the Job with this UID.
abbrev pub AllFenced : String → List Request → Type 0
AllFenced uid [] = Unit
AllFenced uid (expire name u version ∷ rs) = (u ≡ uid) × AllFenced uid rs
AllFenced uid (delete_job name u ∷ rs) = ⊥

AllFenced-append :
    (uid : String) (rs ss : List Request)
    → AllFenced uid rs
    → AllFenced uid ss
    → AllFenced uid (rs ++ ss)
AllFenced-append uid [] ss h k = k
AllFenced-append uid (expire n u v ∷ rs) ss h k = (h.0, AllFenced-append uid rs ss h.1 k)
AllFenced-append uid (delete_job n u ∷ rs) ss h k = absurd h

-- An attempt that expires the Job of one UID at most, and once at most.
record Fenced (uid : String) (r : List Request × Outcome) : Type 0 where
  fenced : AllFenced uid r.0
  once : length r.0 ≤ 1

current-Fenced :
    (observed job : Job) (d : Disposition) (a : Attempt)
    → Fenced observed.uid (expire_current observed job d a)
unfolding expire_current
current-Fenced observed job d a = elim (Bool-cases (job.uid == observed.uid)) [
  | inl e ↦ ground (arith, e, eq_of_beq job.uid observed.uid e)
  | inr e ↦ ground (arith, e)
]

attempt-Fenced :
    (observed : Job) (d : Disposition) (a : Attempt)
    → Fenced observed.uid (expire_abandoned_job observed d a)
unfolding expire_abandoned_job expire_current
attempt-Fenced observed d a = go a.refreshed refl
  where
    go :
        (r : Answer Job) → a.refreshed ≡ r → Fenced observed.uid (expire_abandoned_job observed d a)
    go (answer job) e = rw e (current-Fenced observed job d a)
    go (refused not_found) e = rw e (record { fenced = tt; once = omega arith })
    go (refused conflict) e = rw e (current-Fenced observed observed d a)
    go (refused transient) e = rw e (current-Fenced observed observed d a)
    go (refused (other m)) e = rw e (current-Fenced observed observed d a)

record Bounded (uid : String) (n : ℕ) (r : List Request × Outcome) : Type 0 where
  fenced : AllFenced uid r.0
  few : length r.0 ≤ n

retry-Bounded :
    (observed : Job) (d : Disposition) (attempts : List Attempt) (last : Outcome)
    → Bounded observed.uid (length attempts) (retry_expire observed d attempts last)
unfolding retry_expire
retry-Bounded observed d [] last = record { fenced = tt; few = omega arith }
retry-Bounded observed d (a ∷ attempts) last =
    let r = expire_abandoned_job observed d a in
    let v = attempt-Fenced observed d a in
    let rest = retry_expire observed d attempts r.1 in
    let u = retry-Bounded observed d attempts r.1 in
    elim (Bool-cases (is_retried r.1)) [
      | inl e ↦ rw e (record {
        fenced = AllFenced-append observed.uid r.0 rest.0 v.fenced u.fenced;
        few = omega (arith, v.once, u.few, length-append r.0 rest.0);
      })
      | inr e ↦ rw e (record { fenced = v.fenced; few = omega (arith, v.once) })
    ]

-- Whatever the API answers, stopping an execution asks for nothing but the expiry of the Job with
-- the observed UID, at most once an attempt, and for nothing at all when the observed Job has
-- finished.
pub stop_fenced :
    (observed : Job) (d : Disposition) (attempts : List Attempt)
    → let r = request_job_execution_stop observed d attempts in
      AllFenced observed.uid r.0
      × (length r.0 ≤ (if is_finished observed then 0 else length attempts))
unfolding request_job_execution_stop
stop_fenced observed d attempts =
    let u = retry-Bounded observed d attempts (api_error transient) in
    elim (Bool-cases (is_finished observed)) [
      | inl e ↦ rw e (tt, omega arith)
      | inr e ↦ rw e (u.fenced, u.few)
    ]
