-- ===== src/Client/Maps/Jobs.antt =====
-- What of a job's request comes back in the map of the job: the type and the arguments.
use ojs_conformance.Common.{
  Text, text, Bool, true, false, List, [], ◌∷◌, Option, none, some, str_eq, not, eq_ℤ, pos, ◌≡◌,
  ◌≢◌, ◌∙◌, refl, sym, ap, arith, All,
}
use ojs_conformance.Json.{Runtime, Value, Values, Entries, entry, end, get_entry, elements}
use ojs_conformance.Client.{Protobuf, values_in}
use ojs_conformance.Client.Messages.{Job}
use ojs_conformance.Client.Bodies.{read_job, read_args}
use ojs_conformance.Client.Maps.{
  put_if, values_of, list_of, put_text, put_int, put_list, put_some, put_map, put_times, error_map,
  retry_map, unique_map, time_value, job_map, job_head, put_job_rest, enum_value,
}

module _ {Num : Type 0} (k j : Text) (ne : str_eq j k ≡ false) where
  get-entry : (v : Value Num) (m : Entries Num) → get_entry k (entry j v m) ≡ get_entry k m
  get-entry v m = rw ne refl

  get-put_if :
      (b : Bool) (v : Value Num) (m : Entries Num) → get_entry k (put_if b j v m) ≡ get_entry k m
  get-put_if true v m = get-entry v m
  get-put_if false v m = refl

  get-put_text : (t : Text) (m : Entries Num) → get_entry k (put_text j t m) ≡ get_entry k m
  get-put_text [] m = refl
  get-put_text (c ∷ cs) m = get-entry (Value.string (c ∷ cs)) m

  get-put_list {ℓ} :
      {A : Type ℓ} (f : A → Value Num) (xs : List A) (m : Entries Num)
      → get_entry k (put_list f j xs m) ≡ get_entry k m
  get-put_list f [] m = refl
  get-put_list f (x ∷ xs) m = get-entry (list_of f (x ∷ xs)) m

  get-put_some {ℓ} :
      {A : Type ℓ} (f : A → Value Num) (x : Option A) (m : Entries Num)
      → get_entry k (put_some f j x m) ≡ get_entry k m
  get-put_some f none m = refl
  get-put_some f (some x) m = get-entry (f x) m

  get-put_map {ℓ} :
      {A : Type ℓ} (f : A → Entries Num) (x : Option A) (m : Entries Num)
      → get_entry k (elim x [ none ↦ m | some a ↦ put_map j (f a) m ]) ≡ get_entry k m
  get-put_map f none m = refl
  get-put_map f (some x) m = ground arith

module _ {Num W : Type 0} (R : Runtime Num) (P : Protobuf Num W) where
  -- The key of a job that no later entry has.
  abbrev IsEarly : Text → Type 0
  IsEarly k =
      (str_eq (text "errors") k ≡ false)
      × (str_eq (text "tags") k ≡ false)
      × (str_eq (text "trace_id") k ≡ false)
      × (str_eq (text "workflow_id") k ≡ false)
      × (str_eq (text "result") k ≡ false)
      × (str_eq (text "meta") k ≡ false)
      × (str_eq (text "retry_policy") k ≡ false)
      × (str_eq (text "unique_policy") k ≡ false)

  get-put_job_rest :
      (k : Text)
      → IsEarly k
      → (j : Job Num W) (m4 : Entries Num) → get_entry k (put_job_rest R P j m4) ≡ get_entry k m4
  get-put_job_rest k (h5, h6, h7, h8, h9, h10, h11, h12) j m4 =
      let object : W → Value Num = λ s. Value.object (P.as_map s) in
      let m5 = put_list error_map (text "errors") j.errors m4 in
      let m6 = put_list Value.string (text "tags") j.tags m5 in
      let m7 = put_text (text "trace_id") j.trace_id m6 in
      let m8 = put_text (text "workflow_id") j.workflow_id m7 in
      let m9 = put_some object (text "result") j.result m8 in
      let m10 = put_some object (text "meta") j.meta m9 in
      let m11 : Entries Num = elim j.retry_policy [
        | none ↦ m10
        | some r ↦ put_map (text "retry_policy") (retry_map R P r) m10
      ] in
      get-put_map k (text "unique_policy") h12 (unique_map R P) j.unique_policy m11
      ∙ (get-put_map k (text "retry_policy") h11 (retry_map R P) j.retry_policy m10
          ∙ (get-put_some k (text "meta") h10 object j.meta m9
              ∙ (get-put_some k (text "result") h9 object j.result m8
                  ∙ (get-put_text k (text "workflow_id") h8 j.workflow_id m7
                      ∙ (get-put_text k (text "trace_id") h7 j.trace_id m6
                          ∙ (get-put_list k (text "tags") h6 Value.string j.tags m5
                              ∙ get-put_list k (text "errors") h5 error_map j.errors m4))))))

  -- structpb.NewValue converts the value, and AsInterface gives it back.
  abbrev pub Converts : Value Num → Type 0
  Converts v = (w : W) × (P.new_value v ≡ some w) × (P.as_interface w ≡ v)

  values_of-values_in :
      (vs : Values Num)
      → All Converts (elements vs)
      → values_of P.as_interface (values_in P vs) ≡ vs
  unfolding values_in values_of
  values_of-values_in Values.nil h = refl
  values_of-values_in (Values.cons v vs) ((w, e, b), h) =
      let ih = values_of-values_in vs h in rw (e, values_in) (rw b (ap (Values.cons v) ih))

  get_same :
      (xs : List W) (m : Entries Num) (vs : Values Num)
      → values_of P.as_interface xs ≡ vs
      → vs ≢ Values.nil
      → get_entry (text "args") (put_list P.as_interface (text "args") xs m) ≡ some (Value.array vs)
  unfolding values_of str_eq
  get_same [] m vs e ne = absurd (ne (sym e))
  get_same (x ∷ xs) m vs e ne = ap (λ t. some (Value.array t)) e

  get-put_times :
      (k : Text)
      → (str_eq (text "created_at") k ≡ false)
        × (str_eq (text "enqueued_at") k ≡ false)
        × (str_eq (text "scheduled_at") k ≡ false)
        × (str_eq (text "started_at") k ≡ false)
        × (str_eq (text "completed_at") k ≡ false)
        × (str_eq (text "expires_at") k ≡ false)
      → (j : Job Num W) (m0 : Entries Num) → get_entry k (put_times R P j m0) ≡ get_entry k m0
  get-put_times k (h1, h2, h3, h4, h5, h6) j m0 =
      let f = time_value P in
      let m1 = put_some f (text "created_at") j.created_at m0 in
      let m2 = put_some f (text "enqueued_at") j.enqueued_at m1 in
      let m3 = put_some f (text "scheduled_at") j.scheduled_at m2 in
      let m4 = put_some f (text "started_at") j.started_at m3 in
      let m5 = put_some f (text "completed_at") j.completed_at m4 in
      get-put_some k (text "expires_at") h6 f j.expires_at m5
      ∙ (get-put_some k (text "completed_at") h5 f j.completed_at m4
          ∙ (get-put_some k (text "started_at") h4 f j.started_at m3
              ∙ (get-put_some k (text "scheduled_at") h3 f j.scheduled_at m2
                  ∙ (get-put_some k (text "enqueued_at") h2 f j.enqueued_at m1
                      ∙ get-put_some k (text "created_at") h1 f j.created_at m0))))

  get_type-job_head :
      (j : Job Num W) → get_entry (text "type") (job_head R P j) ≡ some (Value.string j.type)
  unfolding str_eq enum_value
  get_type-job_head j =
      let m0 : Entries Num = entry (text "id") (Value.string j.id) (
        entry (text "type") (Value.string j.type) (
          entry (text "queue") (Value.string j.queue) (
            entry (text "state") (enum_value P (P.job_state j.state) (text "JOB_STATE_"))
              (entry (text "attempt") (Value.int32 j.attempt) end)))) in
      let m1 = put_int (text "priority") j.priority m0 in
      let m2 = put_int (text "max_attempts") j.max_attempts m1 in
      let k = text "type" in
      get-put_times k (refl, refl, refl, refl, refl, refl) j
        (put_text (text "specversion") j.specversion m2)
      ∙ (get-put_text k (text "specversion") refl j.specversion m2
          ∙ (get-put_if k (text "max_attempts") refl (not (eq_ℤ j.max_attempts (pos 0)))
                (Value.int32 j.max_attempts) m1
              ∙ get-put_if k (text "priority") refl (not (eq_ℤ j.priority (pos 0)))
                  (Value.int32 j.priority) m0))

  -- Where a body has a type and a nonempty list of arguments that structpb converts and gives back,
  -- the map of any job that has the type and the arguments of the request that enqueue builds from
  -- the body has this type and these arguments under the keys of the body.
  pub job_map-read_job :
      (body : Entries Num) (t : Text) (vs : Values Num)
      → get_entry (text "type") body ≡ some (Value.string t)
      → get_entry (text "args") body ≡ some (Value.array vs)
      → vs ≢ Values.nil
      → All Converts (elements vs)
      → (j : Job Num W) → j.type ≡ (read_job R P body).type
      → j.args ≡ (read_job R P body).args
      → (get_entry (text "type") (job_map R P j) ≡ get_entry (text "type") body)
        × (get_entry (text "args") (job_map R P j) ≡ get_entry (text "args") body)
  unfolding job_map read_job read_args
  job_map-read_job body t vs et ea ne conv j jt ja =
      let m4 = put_list P.as_interface (text "args") j.args (job_head R P j) in
      let type_read : j.type ≡ t = jt ∙ rw et refl in
      let args_read : j.args ≡ values_in P vs = ja ∙ rw (ea, read_args) refl in
      (
        get-put_job_rest (text "type") (refl, refl, refl, refl, refl, refl, refl, refl) j m4
            ∙ (get-put_list (text "type") (text "args") refl P.as_interface j.args (job_head R P j)
                ∙ (get_type-job_head j ∙ (ap (λ s. some (Value.string s)) type_read ∙ sym et))),
        get-put_job_rest (text "args") (refl, refl, refl, refl, refl, refl, refl, refl) j m4
            ∙ (get_same j.args (job_head R P j) vs
                  (ap (values_of P.as_interface) args_read ∙ values_of-values_in vs conv) ne
                ∙ sym ea),
      )
