-- ===== src/Guarantees/Usage.antt =====
-- The sums of quota.go against the plain sums over the natural numbers, and the test of the gate.
use mathlib.Core.List.{Perm, Permᴰ}
use mathlib.Core.Logic.{∥∥₁_elim}
use native.Mathlib.Nat.{ℕ_set}
use native.Mathlib.Decide.{dec_lt}
use fyp.Common.{
  ℕ, ◌+◌, ◌%◌, ◌^◌, ◌≤◌, ◌<◌, String, Bool, true, false, ◌≡◌, ◌≢◌, refl, ◌↔◌, ◌∙◌, sym, List, [],
  ◌∷◌, ◌++◌, ◌==ˢ◌, eq_iff, arith, if◌then◌else◌, Bool-cases, inl, inr, ap,
}
use fyp.Common.Words.{Int32, add32, IsNonneg32}
use fyp.Api.TrainingJob.{TrainingJob, ◌==ᵖ◌, running, queued}
use fyp.Controller.QuotaGate.{over_quota}
use fyp.Quota.{used_gpus, used_gpus_from, count_queued, count_queued_from}

-- The GPUs that one job holds.
abbrev pub held : String → TrainingJob → ℕ
held exclude_name j =
    if j.metadata.name ==ˢ exclude_name
    then 0
    else if j.status.phase ==ᵖ running
    then j.spec.gpus
    else 0

-- The GPUs that the jobs hold together, without wrap-around.
abbrev pub total_held : String → List TrainingJob → ℕ
total_held exclude_name [] = 0
total_held exclude_name (j ∷ jobs) = held exclude_name j + total_held exclude_name jobs

abbrev pub total_queued : List TrainingJob → ℕ
total_queued [] = 0
total_queued (j ∷ jobs) = (if j.status.phase ==ᵖ queued then 1 else 0) + total_queued jobs

-- One round of the loop of UsedGPUs.
round_lem :
    (ex : String) (used : ℕ) (j : TrainingJob)
    → used < 2 ^ 32
    → (if j.metadata.name ==ˢ ex
        then used
        else if j.status.phase ==ᵖ running
        then add32 used j.spec.gpus
        else used)
      ≡ (used + held ex j) % 2 ^ 32
round_lem ex used j h = ground arith

used_gpus_from_lem :
    (ex : String) (used : ℕ) (jobs : List TrainingJob)
    → used < 2 ^ 32
    → used_gpus_from ex used jobs ≡ (used + total_held ex jobs) % 2 ^ 32
unfolding used_gpus_from
used_gpus_from_lem ex used [] h = omega arith
used_gpus_from_lem ex used (j ∷ jobs) h =
    rw (round_lem ex used j h)
      (used_gpus_from_lem ex ((used + held ex j) % 2 ^ 32) jobs (omega arith) ∙ omega arith)

-- UsedGPUs is the GPUs held by the Running jobs other than the named one, modulo 2 ^ 32.
pub used_gpus-eq-total_held :
    (jobs : List TrainingJob) (ex : String) → used_gpus jobs ex ≡ total_held ex jobs % 2 ^ 32
unfolding used_gpus
used_gpus-eq-total_held jobs ex = used_gpus_from_lem ex 0 jobs (omega arith) ∙ omega arith

count_queued_from_lem :
    (n : ℕ) (jobs : List TrainingJob)
    → n < 2 ^ 32
    → count_queued_from n jobs ≡ (n + total_queued jobs) % 2 ^ 32
unfolding count_queued_from
count_queued_from_lem n [] h = omega arith
count_queued_from_lem n (j ∷ jobs) h = elim (Bool-cases (j.status.phase ==ᵖ queued)) [
  | inl one ↦ rw one (count_queued_from_lem (add32 n 1) jobs (omega arith) ∙ omega arith)
  | inr other ↦ rw other (count_queued_from_lem n jobs h ∙ omega arith)
]

-- CountQueued is the number of jobs in phase Queued, modulo 2 ^ 32.
pub count_queued-eq-total_queued :
    (jobs : List TrainingJob) → count_queued jobs ≡ total_queued jobs % 2 ^ 32
unfolding count_queued
count_queued-eq-total_queued jobs = count_queued_from_lem 0 jobs (omega arith) ∙ omega arith

total_held-Permᴰ :
    (ex : String) {xs ys : List TrainingJob} → Permᴰ xs ys → total_held ex xs ≡ total_held ex ys
total_held-Permᴰ ex Permᴰ.nil = refl
total_held-Permᴰ ex (Permᴰ.cons x p) = omega (arith, ap (held ex) x, total_held-Permᴰ ex p)
total_held-Permᴰ ex (Permᴰ.swap x y) = omega (arith, ap (held ex) x, ap (held ex) y)
total_held-Permᴰ ex (Permᴰ.trans p q) = total_held-Permᴰ ex p ∙ total_held-Permᴰ ex q

-- The order in which the API server lists the jobs does not change the usage.
pub used_gpus-perm :
    (ex : String) {xs ys : List TrainingJob} → Perm xs ys → used_gpus xs ex ≡ used_gpus ys ex
used_gpus-perm ex {xs} {ys} p = ∥∥₁_elim p (ℕ_set _ _) λ q.
    used_gpus-eq-total_held xs ex
    ∙ ap (λ n. n % 2 ^ 32) (total_held-Permᴰ ex q)
    ∙ sym (used_gpus-eq-total_held ys ex)

-- The GPUs of all Running jobs.
abbrev pub namespace_usage : List TrainingJob → ℕ
namespace_usage [] = 0
namespace_usage (j ∷ jobs) =
    (if j.status.phase ==ᵖ running then j.spec.gpus else 0) + namespace_usage jobs

-- No job of the list has this name.
abbrev pub LacksName : String → List TrainingJob → Type 0
LacksName name [] = Unit {0}
LacksName name (j ∷ jobs) = (j.metadata.name ≢ name) × LacksName name jobs

total_held-others :
    (name : String) (jobs : List TrainingJob)
    → LacksName name jobs
    → total_held name jobs ≡ namespace_usage jobs
total_held-others name [] l = refl
total_held-others name (j ∷ jobs) l =
    ground (arith, eq_iff j.metadata.name name, total_held-others name jobs)

total_held-append :
    (name : String) (xs ys : List TrainingJob)
    → total_held name (xs ++ ys) ≡ total_held name xs + total_held name ys
total_held-append name [] ys = omega arith
total_held-append name (x ∷ xs) ys = omega (arith, total_held-append name xs ys)

pub namespace_usage-append :
    (xs ys : List TrainingJob)
    → namespace_usage (xs ++ ys) ≡ namespace_usage xs + namespace_usage ys
namespace_usage-append [] ys = omega arith
namespace_usage-append (x ∷ xs) ys = omega (arith, namespace_usage-append xs ys)

-- The test of the gate, where the sum is below 2 ^ 31 and hardGPUs is not negative: it holds
-- exactly if the GPUs in use and those of the job are more than hardGPUs.
pub over_quota_iff :
    (peers : List TrainingJob) (name : String) (gpus hard : Int32)
    → total_held name peers + gpus < 2 ^ 31
    → IsNonneg32 hard
    → (over_quota (used_gpus peers name) gpus hard ≡ true) ↔ (hard < total_held name peers + gpus)
over_quota_iff peers name gpus hard fits h =
    let u = used_gpus-eq-total_held peers name in ground arith

abbrev pub running_copy : TrainingJob → TrainingJob
running_copy j = record j { status = record j.status { phase = running } }

not_over : {b : Bool} {m n : ℕ} → (b ≡ true) ↔ (m < n) → b ≡ false → n ≤ m
not_over {m} {n} e f = elim (dec_lt m n) [ yes lt ↦ let t = e.1 lt in cc | no ge ↦ omega arith ]

-- An admitted job stays within the quota: if the gate does not park the job on a list of its
-- namespace, the GPUs of all Running jobs of the list are at most hardGPUs once the job's phase is
-- Running. The other jobs have other names, the GPUs of the Running ones and of the job sum to less
-- than 2 ^ 31, and hardGPUs is not negative.
pub admission_within_quota :
    (xs ys : List TrainingJob) (j : TrainingJob) (hard : Int32)
    → LacksName j.metadata.name xs
    → LacksName j.metadata.name ys
    → namespace_usage xs + namespace_usage ys + j.spec.gpus < 2 ^ 31
    → IsNonneg32 hard
    → over_quota (used_gpus (xs ++ j ∷ ys) j.metadata.name) j.spec.gpus hard ≡ false
    → namespace_usage (xs ++ running_copy j ∷ ys) ≤ hard
admission_within_quota xs ys j hard lx ly fits h admitted =
    let self : held j.metadata.name j ≡ 0 =
      ground (arith, eq_iff j.metadata.name j.metadata.name) in
    let peers : total_held j.metadata.name (xs ++ j ∷ ys)
        ≡ namespace_usage xs + namespace_usage ys =
      omega (
        arith,
        self,
        total_held-append j.metadata.name xs (j ∷ ys),
        total_held-others j.metadata.name xs lx,
        total_held-others j.metadata.name ys ly,
      ) in
    let exact = over_quota_iff (xs ++ j ∷ ys) j.metadata.name j.spec.gpus hard (omega arith) h in
    omega (arith, namespace_usage-append xs (running_copy j ∷ ys), not_over exact admitted, peers)

-- Where the GPUs in use are below 2 ^ 31 and with those of the job reach 2 ^ 31, the sum wraps
-- around to a negative number, and the test of the gate fails, so that the job is admitted, for
-- every hardGPUs that is not negative.
pub over_quota_overflow :
    (peers : List TrainingJob) (name : String) (gpus hard : Int32)
    → total_held name peers < 2 ^ 31
    → IsNonneg32 gpus
    → IsNonneg32 hard
    → 2 ^ 31 ≤ total_held name peers + gpus
    → over_quota (used_gpus peers name) gpus hard ≡ false
over_quota_overflow peers name gpus hard t g h big =
    let u = used_gpus-eq-total_held peers name in ground arith
