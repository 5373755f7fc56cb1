-- ===== src/WorkflowBuilder/Names.antt =====
-- The names that the builder gives: no two attempts share a Workflow, no two jobs share a model.
use mathlib.Core.List.{append_assoc, append_cancel_right}
use Prim.Native.String.{◌++◌ as ◌++ˢ◌}
use fyp.Common.{◌∷◌, ◌++◌, ◌≡◌, sym, ap, ◌∙◌}
use fyp.Common.Words.{Int32, IsNonneg32}
use fyp.Common.Text.{codes, codes-append, codes-injective, Lacks, split_last}
use fyp.Common.Decimal.{show_int32, Lacks-show_int32, codes-show_int32-injective}
use fyp.Api.TrainingJob.{TrainingJob}
use fyp.WorkflowBuilder.{workflow_name, s3_path}

-- The code points, cut at the last dash.
codes-workflow_name :
    (job : TrainingJob) (n : Int32)
    → codes (workflow_name job n)
      ≡ (codes job.metadata.name ++ codes "-attempt") ++ 45 ∷ codes (show_int32 n)
unfolding workflow_name
codes-workflow_name job n =
    codes-append job.metadata.name ("-attempt-" ++ˢ show_int32 n)
    ∙ ap (λ l. codes job.metadata.name ++ l) (codes-append "-attempt-" (show_int32 n))
    ∙ sym (append_assoc (codes job.metadata.name) (codes "-attempt") (45 ∷ codes (show_int32 n)))

-- Two Workflow names are equal only for jobs of one name and for one attempt, where the attempts are
-- not negative.
pub workflow_name-injective :
    (j k : TrainingJob) (m n : Int32)
    → IsNonneg32 m
    → IsNonneg32 n
    → workflow_name j m ≡ workflow_name k n
    → (j.metadata.name ≡ k.metadata.name) × (m ≡ n)
workflow_name-injective j k m n hm hn e =
    let (front, back) =
      split_last 45 (codes j.metadata.name ++ codes "-attempt")
        (codes k.metadata.name ++ codes "-attempt") (Lacks-show_int32 m hm) (Lacks-show_int32 n hn)
        (sym (codes-workflow_name j m) ∙ ap codes e ∙ codes-workflow_name k n) in
    (
      codes-injective _ _ (
          append_cancel_right (codes j.metadata.name) (codes k.metadata.name) (codes "-attempt")
            front),
      codes-show_int32-injective m n hm hn back,
    )

codes-s3_path :
    (job : TrainingJob)
    → codes (s3_path job)
      ≡ (codes job.spec.output.bucket ++ 47 ∷ codes job.metadata.namespace)
        ++ 47 ∷ codes job.metadata.name
unfolding s3_path
codes-s3_path job =
    codes-append job.spec.output.bucket
      ("/" ++ˢ (job.metadata.namespace ++ˢ ("/" ++ˢ job.metadata.name)))
    ∙ ap (λ l. codes job.spec.output.bucket ++ l)
        (codes-append "/" (job.metadata.namespace ++ˢ ("/" ++ˢ job.metadata.name))
          ∙ ap (λ l. 47 ∷ l)
              (codes-append job.metadata.namespace ("/" ++ˢ job.metadata.name)
                ∙ ap (λ l. codes job.metadata.namespace ++ l) (codes-append "/" job.metadata.name)))
    ∙ sym (
        append_assoc (codes job.spec.output.bucket) (47 ∷ codes job.metadata.namespace)
          (47 ∷ codes job.metadata.name))

-- Two jobs upload to one S3 path only if bucket, namespace and name agree, where namespaces and names
-- hold no slash.
pub s3_path-injective :
    (j k : TrainingJob)
    → Lacks 47 (codes j.metadata.namespace)
    → Lacks 47 (codes k.metadata.namespace)
    → Lacks 47 (codes j.metadata.name)
    → Lacks 47 (codes k.metadata.name)
    → s3_path j ≡ s3_path k
    → (j.spec.output.bucket ≡ k.spec.output.bucket)
      × (j.metadata.namespace ≡ k.metadata.namespace)
      × (j.metadata.name ≡ k.metadata.name)
s3_path-injective j k hj hk nj nk e =
    let (front, name) =
      split_last 47 _ _ nj nk (sym (codes-s3_path j) ∙ ap codes e ∙ codes-s3_path k) in
    let (bucket, namespace) = split_last 47 _ _ hj hk front in
    (codes-injective _ _ bucket, codes-injective _ _ namespace, codes-injective _ _ name)
