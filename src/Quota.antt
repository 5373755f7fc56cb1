-- ===== src/Quota.antt =====
-- operator/internal/controller/quota.go: GPU usage, summed afresh from a list of jobs. The loops are
-- recursions on the jobs left, with the running sum as an argument.
use fyp.Common.{String, List, [], ◌∷◌, ◌==ˢ◌, if◌then◌else◌}
use fyp.Common.Words.{Int32, add32}
use fyp.Api.TrainingJob.{TrainingJob, ◌==ᵖ◌, running, queued}

unfoldable pub used_gpus_from : String → Int32 → List TrainingJob → Int32
used_gpus_from exclude_name used [] = used
used_gpus_from exclude_name used (j ∷ jobs) =
    used_gpus_from exclude_name
      (if j.metadata.name ==ˢ exclude_name
        then used
        else if j.status.phase ==ᵖ running
        then add32 used j.spec.gpus
        else used)
      jobs

unfoldable pub used_gpus : List TrainingJob → String → Int32
unfolding used_gpus_from
used_gpus jobs exclude_name = used_gpus_from exclude_name 0 jobs

unfoldable pub count_queued_from : Int32 → List TrainingJob → Int32
count_queued_from n [] = n
count_queued_from n (j ∷ jobs) =
    count_queued_from (if j.status.phase ==ᵖ queued then add32 n 1 else n) jobs

unfoldable pub count_queued : List TrainingJob → Int32
unfolding count_queued_from
count_queued jobs = count_queued_from 0 jobs
