-- ===== src/Tests/Copies.antt =====
-- Deep copies of a concrete list of jobs in memory.
use fyp.Common.{
  ◌-◌, String, Option, none, some, List, [], ◌∷◌, ◌≡◌, ◌==◌, if◌then◌else◌, refl, arith, eq_iff,
}
use fyp.Api.Conditions.{Condition, condition_complete, reason_training_succeeded, condition_true}
use fyp.Api.TrainingJob.{ObjectMeta, succeeded}
use fyp.Memory.{
  Ref, Types, JobStruct, ListStruct, Block, Heap, Mem, write, alloc, store, load, ◌>>=◌, ◌>>◌, pure,
  unused, text_map, int32, time, conditions, jobs, job_list,
}
use fyp.Memory.Cells.{Zeros, time_at}
use fyp.Memory.Shape.{IsDeep, plain, Agree}
use fyp.Memory.Deep.{pure-IsDeep}
use fyp.DeepCopy.{MetaCopies, deep_copy}
use fyp.DeepCopy.Structs.{copy_time}
use fyp.DeepCopy.Objects.{RuntimeObject, training_job_list, deep_copy_object}
use fyp.DeepCopy.Pointers.{deep_copy-IsDeep}
use fyp.DeepCopy.Views
use fyp.DeepCopy.Views.{MetaShapes}
use fyp.DeepCopy.Independence.{
  IsObjectCopy, Lies, view, deep_copy_object-IsObjectCopy, deep_copy_object-independent,
}

-- metav1's types without pointers of their own.
abbrev flat : Types
flat = record {
  TypeMeta = String;
  ObjectMeta = ObjectMeta;
  ListMeta = String;
  Condition = Condition;
  Foreign = Unit {0};
}

abbrev flat_shapes : MetaShapes flat
flat_shapes = record {
  ObjectMeta = ObjectMeta;
  ListMeta = String;
  Condition = Condition;
  object_meta = plain (λ m. Unit {0});
  list_meta = plain (λ m. Unit {0});
  condition = plain (λ c. Unit {0});
}

abbrev no_meta : ObjectMeta
no_meta = record {
  name = "";
  namespace = "";
  generation = 0;
  finalizers = [];
  deletion_timestamp = none;
}

abbrev completed : Condition
completed = record {
  type = condition_complete;
  status = condition_true;
  reason = reason_training_succeeded;
  message = "";
  observed_generation = 1;
}

abbrev flat_zeros : Zeros flat
flat_zeros = record { type_meta = ""; object_meta = no_meta; list_meta = ""; condition = completed }

abbrev new_time : Ref → Mem flat Ref
new_time p = do out ← alloc (time 0); b ← load p; store out (time (time_at b)); pure out

abbrev flat_copies : MetaCopies flat
flat_copies = record { object_meta = pure; list_meta = pure; condition = pure; time = new_time }

copy_time_lem :
    (x : Option Ref) (h : Heap flat)
    → copy_time flat_zeros flat_copies x h ≡ deep_copy time_at time 0 pure x h
unfolding copy_time deep_copy
copy_time_lem none h = refl
copy_time_lem (some p) h = refl

flat_times : IsDeep Views.time_pointer (copy_time flat_zeros flat_copies)
flat_times x h l = rw (copy_time_lem x h) (
    deep_copy-IsDeep (plain (λ t. Unit {0})) time_at time (λ t. refl) 0
      (pure-IsDeep (λ t. Unit {0})) x h l)

abbrev mnist_job : JobStruct flat
mnist_job = record {
  type_meta = "TrainingJob";
  metadata = record no_meta { name = "mnist" };
  spec = record {
    model = record { name = "mnist" };
    dataset = record { name = "digits" };
    hyperparameters = some 0;
    gpus = 1;
    retry = record { backoff_limit = 2 };
    ttl_seconds_after_finished = some 1;
    output = record { bucket = "models" };
  };
  status = record {
    phase = succeeded;
    attempts = 1;
    workflow_name = "mnist-0";
    model_uri = "s3://models";
    start_time = some 2;
    completion_time = none;
    conditions = some 3;
  };
}

abbrev mnist_list : ListStruct flat
mnist_list = record { type_meta = "TrainingJobList"; metadata = "17"; items = some 4 }

abbrev stored_cells : List (Block flat)
stored_cells =
    text_map (("lr", "0.1") ∷ ("epochs", "3") ∷ [])
    ∷ int32 600
    ∷ time 5
    ∷ conditions (completed ∷ [])
    ∷ jobs (mnist_job ∷ [])
    ∷ job_list mnist_list
    ∷ []

abbrev cell_at : List (Block flat) → Ref → Block flat
cell_at [] p = unused
cell_at (b ∷ bs) p = if p == 0 then b else cell_at bs (p - 1)

abbrev stored : Heap flat
stored = record { next = 6; cell = cell_at stored_cells }

stored-Lies : Lies flat_shapes flat_zeros 0 6 stored (training_job_list (some 5))
stored-Lies = (
  omega arith,
  omega arith,
  (
    tt,
    (
      omega arith,
      omega arith,
      (
        (
          tt,
          (
            (
              (omega arith, omega arith, ((ground (arith, eq_iff "epochs" "lr"), tt), (tt, tt))),
              (omega arith, omega arith, tt),
            ),
            ((omega arith, omega arith, tt), (tt, (omega arith, omega arith, (tt, tt)))),
          ),
        ),
        tt,
      ),
    ),
  ),
)

deep_copy_object-IsObjectCopy_example :
    IsObjectCopy flat_shapes flat_zeros
      (training_job_list (some 5))
      stored
      (deep_copy_object flat_zeros flat_copies (training_job_list (some 5)) stored)
deep_copy_object-IsObjectCopy_example =
    deep_copy_object-IsObjectCopy flat_shapes flat_zeros flat_copies (pure-IsDeep (λ m. Unit {0}))
      (pure-IsDeep (λ m. Unit {0})) (pure-IsDeep (λ c. Unit {0})) flat_times
      (training_job_list (some 5)) stored stored-Lies

-- The write overwrites the slice of the copy.
abbrev copied : Option RuntimeObject × Heap flat
copied = deep_copy_object flat_zeros flat_copies (training_job_list (some 5)) stored

deep_copy_object-independent_example :
    (Agree 0 6 (write 7 unused copied.1) copied.1
      → view flat_shapes flat_zeros (write 7 unused copied.1) (training_job_list (some 5))
        ≡ view flat_shapes flat_zeros stored (training_job_list (some 5)))
    × (Agree 6 copied.1.next (write 7 unused copied.1) copied.1
        → view flat_shapes flat_zeros (write 7 unused copied.1) (training_job_list (some 6))
          ≡ view flat_shapes flat_zeros stored (training_job_list (some 5)))
unfolding deep_copy_object
deep_copy_object-independent_example =
    deep_copy_object-independent flat_shapes flat_zeros flat_copies (pure-IsDeep (λ m. Unit {0}))
      (pure-IsDeep (λ m. Unit {0})) (pure-IsDeep (λ c. Unit {0})) flat_times
      (training_job_list (some 5)) (training_job_list (some 6)) stored copied.1
      (write 7 unused copied.1) stored-Lies refl
