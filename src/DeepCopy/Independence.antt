-- ===== src/DeepCopy/Independence.antt =====
-- DeepCopyObject returns an object of its own.
use fyp.Common.{◌≤◌, Bool, true, false, Option, none, some, ◌≡◌, refl, ap, ◌∙◌, sym, subst}
use fyp.Memory.{Ref, Types, Heap, job, job_list, quota, quota_list}
use fyp.Memory.Cells.{
  Zeros, zero_job, zero_quota, zero_list, job_at, quota_at, job_list_at, quota_list_at,
}
use fyp.Memory.Shape.{Agree, Shape, Copied, IsDeep, pointer}
use fyp.DeepCopy.{MetaCopies, deep_copy}
use fyp.DeepCopy.Structs.{copy_time}
use fyp.DeepCopy.Objects.{
  RuntimeObject, training_job, training_job_list, gpu_quota, gpu_quota_list, copy_job,
  copy_job_list, copy_quota, copy_quota_list, copy_job_object, copy_job_list_object,
  copy_quota_object, copy_quota_list_object, deep_copy_object,
}
use fyp.DeepCopy.Pointers.{deep_copy-IsDeep}
use fyp.DeepCopy.Deep.{
  job_into-IsDeep, quota_into-IsDeep, job_list_into-IsDeep, quota_list_into-IsDeep,
}
use fyp.DeepCopy.Views
use fyp.DeepCopy.Views.{MetaShapes, JobValue, QuotaValue, ListValue}

-- What an object stands for.
pub data Value {types : Types} (shapes : MetaShapes types) : Type 0 where
  of_job : Option (JobValue shapes) → Value shapes
  of_job_list : Option (ListValue shapes (JobValue shapes)) → Value shapes
  of_quota : Option (QuotaValue shapes) → Value shapes
  of_quota_list : Option (ListValue shapes (QuotaValue shapes)) → Value shapes

abbrev pub is_nil : RuntimeObject → Bool
is_nil (training_job (some p)) = false
is_nil (training_job_list (some p)) = false
is_nil (gpu_quota (some p)) = false
is_nil (gpu_quota_list (some p)) = false
is_nil _ = true

module _ {types : Types} (shapes : MetaShapes types) (zeros : Zeros types) where
  abbrev jobs : Shape types (Option Ref) (Option (JobValue shapes))
  jobs = pointer (Views.job shapes) (job_at zeros)

  abbrev quotas : Shape types (Option Ref) (Option (QuotaValue shapes))
  quotas = pointer (Views.quota shapes) (quota_at zeros)

  abbrev job_lists : Shape types (Option Ref) (Option (ListValue shapes (JobValue shapes)))
  job_lists = pointer (Views.job_list shapes) (job_list_at zeros)

  abbrev quota_lists : Shape types (Option Ref) (Option (ListValue shapes (QuotaValue shapes)))
  quota_lists = pointer (Views.quota_list shapes) (quota_list_at zeros)

  abbrev pub view : Heap types → RuntimeObject → Value shapes
  view h (training_job p) = of_job (jobs.view h p)
  view h (training_job_list p) = of_job_list (job_lists.view h p)
  view h (gpu_quota p) = of_quota (quotas.view h p)
  view h (gpu_quota_list p) = of_quota_list (quota_lists.view h p)

  abbrev pub Lies : Ref → Ref → Heap types → RuntimeObject → Type 0
  Lies lo hi h (training_job p) = jobs.Lies lo hi h p
  Lies lo hi h (training_job_list p) = job_lists.Lies lo hi h p
  Lies lo hi h (gpu_quota p) = quotas.Lies lo hi h p
  Lies lo hi h (gpu_quota_list p) = quota_lists.Lies lo hi h p

  pub object-frame :
      (lo hi : Ref) (g h : Heap types) (x : RuntimeObject)
      → Lies lo hi h x
      → Agree lo hi g h
      → Lies lo hi g x × (view g x ≡ view h x)
  object-frame lo hi g h (training_job p) l e =
      let (m, q) = jobs.frame lo hi g h p l e in (m, ap of_job q)
  object-frame lo hi g h (training_job_list p) l e =
      let (m, q) = job_lists.frame lo hi g h p l e in (m, ap of_job_list q)
  object-frame lo hi g h (gpu_quota p) l e =
      let (m, q) = quotas.frame lo hi g h p l e in (m, ap of_quota q)
  object-frame lo hi g h (gpu_quota_list p) l e =
      let (m, q) = quota_lists.frame lo hi g h p l e in (m, ap of_quota_list q)

  pub object-widen :
      (lo lo' hi hi' : Ref) (h : Heap types) (x : RuntimeObject)
      → lo' ≤ lo
      → hi ≤ hi'
      → Lies lo hi h x
      → Lies lo' hi' h x
  object-widen lo lo' hi hi' h (training_job x) p q l = jobs.widen lo lo' hi hi' h x p q l
  object-widen lo lo' hi hi' h (training_job_list x) p q l = job_lists.widen lo lo' hi hi' h x p q l
  object-widen lo lo' hi hi' h (gpu_quota x) p q l = quotas.widen lo lo' hi hi' h x p q l
  object-widen lo lo' hi hi' h (gpu_quota_list x) p q l = quota_lists.widen lo lo' hi hi' h x p q l

  abbrev pub object : Shape types RuntimeObject (Value shapes)
  object = record { view = view; Lies = Lies; frame = object-frame; widen = object-widen }

  -- What a copy of `x` may give: nil for a nil pointer, else an object of its own.
  pub data IsObjectCopy (x : RuntimeObject) (h : Heap types)
      : Option RuntimeObject × Heap types → Type 0 where
    nothing : is_nil x ≡ true → IsObjectCopy x h (none, h)
    object_copy :
        (y : RuntimeObject) (h' : Heap types)
        → is_nil x ≡ false
        → Copied object x h (y, h')
        → IsObjectCopy x h (some y, h')

  -- A copy of the pointer is one of the object.
  as_object-Copied :
      {V : Type 0} (s : Shape types (Option Ref) V) (type : Option Ref → RuntimeObject)
      (f : V → Value shapes)
      → ((g : Heap types) (p : Option Ref) → view g (type p) ≡ f (s.view g p))
      → ((lo hi : Ref) (g : Heap types) (p : Option Ref) → s.Lies lo hi g p → Lies lo hi g (type p))
      → (p q : Option Ref) (h h' : Heap types) → Copied s p h (q, h')
      → Copied object (type p) h (type q, h')
  as_object-Copied s type f viewed lies p q h h' copied = record {
    grows = copied.grows;
    keeps = copied.keeps;
    same = viewed h' q ∙ ap f copied.same ∙ sym (viewed h p);
    own = lies h.next h'.next h' q copied.own;
  }

  IsObjectCopy-Copied :
      (x y : RuntimeObject) (h h' : Heap types)
      → IsObjectCopy x h (some y, h')
      → Copied object x h (y, h')
  IsObjectCopy-Copied x _ h _ (object_copy _ _ n copied) = copied

  Copied-independent :
      (x y : RuntimeObject) (h h' g : Heap types)
      → Lies 0 h.next h x
      → Copied object x h (y, h')
      → (Agree 0 h.next g h' → view g x ≡ view h x)
        × (Agree h.next h'.next g h' → view g y ≡ view h x)
  Copied-independent x y h h' g l copied = (
    λ e. (object.frame 0 h.next g h x l (λ p q r. e p q r ∙ copied.keeps p q r)).1,
    λ e. (object.frame h.next h'.next g h' y copied.own e).1 ∙ copied.same,
  )

module _ {types : Types} (shapes : MetaShapes types) (zeros : Zeros types)
    (copies : MetaCopies types) (deep_meta : IsDeep shapes.object_meta copies.object_meta)
    (deep_list_meta : IsDeep shapes.list_meta copies.list_meta)
    (deep_condition : IsDeep shapes.condition copies.condition)
    (deep_time : IsDeep Views.time_pointer (copy_time zeros copies)) where
  -- DeepCopyObject of an object that lies in the memory in use, if metav1's types copy their own
  -- values deeply: a nil pointer gives the nil object and leaves the memory alone; any other object
  -- gives one that stands for the same, all of whose cells are new, and no cell in use has changed.
  pub deep_copy_object-IsObjectCopy :
      (x : RuntimeObject) (h : Heap types)
      → Lies shapes zeros 0 h.next h x
      → IsObjectCopy shapes zeros x h (deep_copy_object zeros copies x h)
  unfolding deep_copy_object copy_job_object copy_job_list_object copy_quota_object
      copy_quota_list_object copy_job copy_job_list copy_quota copy_quota_list deep_copy
  deep_copy_object-IsObjectCopy (training_job none) h l = nothing refl
  deep_copy_object-IsObjectCopy (training_job_list none) h l = nothing refl
  deep_copy_object-IsObjectCopy (gpu_quota none) h l = nothing refl
  deep_copy_object-IsObjectCopy (gpu_quota_list none) h l = nothing refl
  deep_copy_object-IsObjectCopy (training_job (some p)) h l = object_copy _ _ refl (
      as_object-Copied shapes zeros (jobs shapes zeros) training_job of_job (λ g q. refl)
        (λ lo hi g q m. m) (some p) _ h _
        (deep_copy-IsDeep (Views.job shapes) (job_at zeros) job (λ j. refl) (zero_job zeros)
          (job_into-IsDeep shapes zeros copies deep_meta deep_list_meta deep_condition deep_time)
          (some p) h l))
  deep_copy_object-IsObjectCopy (training_job_list (some p)) h l = object_copy _ _ refl (
      as_object-Copied shapes zeros (job_lists shapes zeros) training_job_list of_job_list
        (λ g q. refl) (λ lo hi g q m. m) (some p) _ h _
        (deep_copy-IsDeep (Views.job_list shapes) (job_list_at zeros) job_list (λ j. refl)
          (zero_list zeros)
          (job_list_into-IsDeep shapes zeros copies deep_meta deep_list_meta deep_condition
            deep_time)
          (some p) h l))
  deep_copy_object-IsObjectCopy (gpu_quota (some p)) h l = object_copy _ _ refl (
      as_object-Copied shapes zeros (quotas shapes zeros) gpu_quota of_quota (λ g q. refl)
        (λ lo hi g q m. m) (some p) _ h _
        (deep_copy-IsDeep (Views.quota shapes) (quota_at zeros) quota (λ j. refl) (zero_quota zeros)
          (quota_into-IsDeep shapes zeros copies deep_meta deep_list_meta deep_condition deep_time)
          (some p) h l))
  deep_copy_object-IsObjectCopy (gpu_quota_list (some p)) h l = object_copy _ _ refl (
      as_object-Copied shapes zeros (quota_lists shapes zeros) gpu_quota_list of_quota_list
        (λ g q. refl) (λ lo hi g q m. m) (some p) _ h _
        (deep_copy-IsDeep (Views.quota_list shapes) (quota_list_at zeros) quota_list (λ j. refl)
          (zero_list zeros)
          (quota_list_into-IsDeep shapes zeros copies deep_meta deep_list_meta deep_condition
            deep_time)
          (some p) h l))

  -- DeepCopyObject of an object that lies in the memory in use, if metav1's types copy their own
  -- values deeply, where it returns an object: in every memory that agrees with the one behind the
  -- call on the cells that were in use before, the original stands for what it stood for, and in every
  -- memory that agrees with it on the new cells, the copy stands for what the original stood for. So
  -- no write through one is seen through the other.
  pub deep_copy_object-independent :
      (x y : RuntimeObject) (h h' g : Heap types)
      → Lies shapes zeros 0 h.next h x
      → deep_copy_object zeros copies x h ≡ (some y, h')
      → (Agree 0 h.next g h' → view shapes zeros g x ≡ view shapes zeros h x)
        × (Agree h.next h'.next g h' → view shapes zeros g y ≡ view shapes zeros h x)
  deep_copy_object-independent x y h h' g l e = Copied-independent shapes zeros x y h h' g l (
      IsObjectCopy-Copied shapes zeros x y h h'
        (subst (IsObjectCopy shapes zeros x h) e (deep_copy_object-IsObjectCopy x h l)))
