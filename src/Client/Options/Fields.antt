-- ===== src/Client/Options/Fields.antt =====
-- The queue, the priority and the attempts of the options that buildEnqueueOptions returns.
use ojs_conformance.Common.{
  Text, text, ℤ, pos, eq_ℤ, eq_ℤ_iff, str_eq, str_eq_iff, [], Option, none, some, ◌≡◌, ◌∙◌, refl,
  sym, ap, arith, inl, inr, Option-cases, ◌>>=◌, if◌then◌else◌,
}
use ojs_conformance.Json.{Runtime, Entries}
use ojs_conformance.Client.{Protobuf, text_field, number_field, map_field, list_field}
use ojs_conformance.Client.Messages.{EnqueueOptions}
use ojs_conformance.Client.Bodies.{text_or_empty, or_zero, int32_field}
use ojs_conformance.Client.Settings.{read, fall_back, built-some, read-keeps, fall_back-keeps}
use ojs_conformance.Client.Options.{
  no_queue, no_priority, no_attempts, set_queue, set_priority, set_attempts, add_tags, set_trace,
  set_start, set_timeout, set_ttl, set_retry, set_unique, set_meta, retry_in, unique_in,
  seconds_field, duration_field, nothing_read, Reading, read_plain, read_labels, read_times,
  read_objects, read_fallbacks, read_options, build_enqueue_options,
}

module _ {Num W : Type 0} (R : Runtime Num) (P : Protobuf Num W) where
  -- The three fields.
  abbrev plain : EnqueueOptions Num W → Text × ℤ × ℤ
  plain o = (o.queue, o.priority, o.max_attempts)

  plain-read_labels :
      (src : Entries Num) (s : Reading R P) → plain (read_labels R P src s).0 ≡ plain s.0
  unfolding read_labels
  plain-read_labels src s0 =
      let s1 = read s0 (list_field (text "tags") src) (add_tags R P) in
      (read-keeps s1 (text_field (text "trace_id") src) (set_trace R P) plain (λ o v. refl)
        ∙ read-keeps s0 (list_field (text "tags") src) (add_tags R P) plain (λ o v. refl))

  plain-read_times :
      (src : Entries Num) (s : Reading R P) → plain (read_times R P src s).0 ≡ plain s.0
  unfolding read_times
  plain-read_times src s0 =
      let s1 = read s0 (text_field (text "scheduled_at") src >>= P.parse_time) (set_start R P) in
      let s2 = read s1 (seconds_field R P (text "timeout") src) (set_timeout R P) in
      let s3 = read s2 (duration_field R P (text "timeout") src) (set_timeout R P) in
      let s4 = read s3 (seconds_field R P (text "ttl") src) (set_ttl R P) in
      (read-keeps s4 (duration_field R P (text "ttl") src) (set_ttl R P) plain (λ o v. refl)
        ∙ (read-keeps s3 (seconds_field R P (text "ttl") src) (set_ttl R P) plain (λ o v. refl)
            ∙ (read-keeps s2 (duration_field R P (text "timeout") src) (set_timeout R P) plain
                  (λ o v. refl)
                ∙ (read-keeps s1 (seconds_field R P (text "timeout") src) (set_timeout R P) plain
                      (λ o v. refl)
                    ∙ read-keeps s0 (text_field (text "scheduled_at") src >>= P.parse_time)
                        (set_start R P) plain (λ o v. refl)))))

  plain-read_objects :
      (src : Entries Num) (s : Reading R P) → plain (read_objects R P src s).0 ≡ plain s.0
  unfolding read_objects
  plain-read_objects src s0 =
      let s1 = read s0 (retry_in R P src) (set_retry R P) in
      let s2 = read s1 (unique_in R P src) (set_unique R P) in
      (read-keeps s2 (map_field (text "meta") src >>= P.new_struct) (set_meta R P) plain
          (λ o v. refl)
        ∙ (read-keeps s1 (unique_in R P src) (set_unique R P) plain (λ o v. refl)
            ∙ read-keeps s0 (retry_in R P src) (set_retry R P) plain (λ o v. refl)))

  -- The three fields as a source gives them.
  abbrev pub plain_in : Entries Num → Text × ℤ × ℤ
  plain_in src = (
    text_or_empty (text_field (text "queue") src),
    or_zero (int32_field R P (text "priority") src),
    or_zero (int32_field R P (text "max_attempts") src),
  )

  plain-read_plain :
      (src : Entries Num) → plain (read_plain R P src (nothing_read R P)).0 ≡ plain_in src
  unfolding read_plain
  plain-read_plain src = ground arith

  plain-read_options :
      (src : Entries Num) → plain (read_options R P src (nothing_read R P)).0 ≡ plain_in src
  plain-read_options src =
      let s1 = read_plain R P src (nothing_read R P) in
      let s2 = read_labels R P src s1 in
      (plain-read_objects src (read_times R P src s2)
        ∙ (plain-read_times src s2 ∙ (plain-read_labels src s1 ∙ plain-read_plain src)))

  -- A value of the nested options, or that of the body where it is empty or zero.
  abbrev pub text_or : Text → Text → Text
  text_or v w = if str_eq v [] then w else v

  abbrev pub int_or : ℤ → ℤ → ℤ
  int_or v w = if eq_ℤ v (pos 0) then w else v

  -- The three fields of the options, by the nested options if there are any: these come first.
  abbrev pub plain_from : Entries Num → Option (Entries Num) → Text × ℤ × ℤ
  plain_from body none = plain_in body
  plain_from body (some nested) = (
    text_or (plain_in nested).0 (plain_in body).0,
    int_or (plain_in nested).1 (plain_in body).1,
    int_or (plain_in nested).2 (plain_in body).2,
  )

  fall_back-queue :
      (s : Reading R P) (v : Option Text)
      → (fall_back s (no_queue R P) v (set_queue R P)).0.queue ≡ text_or s.0.queue (text_or_empty v)
  fall_back-queue s none = let q = str_eq_iff s.0.queue [] in ground arith
  fall_back-queue s (some v) = ground arith

  fall_back-priority :
      (s : Reading R P) (v : Option Num)
      → (fall_back s (no_priority R P) v (set_priority R P)).0.priority
        ≡ int_or s.0.priority (or_zero (v >>= λ x. some (P.int32_of x)))
  fall_back-priority s none = let q = eq_ℤ_iff s.0.priority (pos 0) in ground arith
  fall_back-priority s (some v) = ground arith

  fall_back-attempts :
      (s : Reading R P) (v : Option Num)
      → (fall_back s (no_attempts R P) v (set_attempts R P)).0.max_attempts
        ≡ int_or s.0.max_attempts (or_zero (v >>= λ x. some (P.int32_of x)))
  fall_back-attempts s none = let q = eq_ℤ_iff s.0.max_attempts (pos 0) in ground arith
  fall_back-attempts s (some v) = ground arith

  plain-read_fallbacks :
      (body : Entries Num) (s : Reading R P)
      → plain (read_fallbacks R P body s).0 ≡ (
        text_or s.0.queue (plain_in body).0,
        int_or s.0.priority (plain_in body).1,
        int_or s.0.max_attempts (plain_in body).2,
      )
  unfolding read_fallbacks
  plain-read_fallbacks body s =
      let q = text_field (text "queue") body in
      let p = number_field (text "priority") body in
      let m = number_field (text "max_attempts") body in
      let s1 = fall_back s (no_queue R P) q (set_queue R P) in
      let s2 = fall_back s1 (no_priority R P) p (set_priority R P) in
      let queue =
        fall_back-keeps s2 (no_attempts R P) m (set_attempts R P) (λ o. o.queue) (λ o v. refl)
        ∙ (fall_back-keeps s1 (no_priority R P) p (set_priority R P) (λ o. o.queue) (λ o v. refl)
            ∙ fall_back-queue s q) in
      let priority =
        fall_back-keeps s2 (no_attempts R P) m (set_attempts R P) (λ o. o.priority) (λ o v. refl)
        ∙ (fall_back-priority s1 p
            ∙ ap (λ z. int_or z (plain_in body).1)
                (fall_back-keeps s (no_queue R P) q (set_queue R P) (λ o. o.priority)
                  (λ o v. refl))) in
      let attempts =
        fall_back-attempts s2 m
        ∙ ap (λ z. int_or z (plain_in body).2)
            (fall_back-keeps s1 (no_priority R P) p (set_priority R P) (λ o. o.max_attempts)
                (λ o v. refl)
              ∙ fall_back-keeps s (no_queue R P) q (set_queue R P) (λ o. o.max_attempts)
                  (λ o v. refl)) in
      λ i. (queue i, priority i, attempts i)

  -- The queue, the priority and the attempts of the options that buildEnqueueOptions returns are
  -- those of the body. Where the body has an object of options, they are those of the object, but
  -- for each that is missing there, or is empty or zero, the body is asked.
  pub build_enqueue_options-plain :
      (body : Entries Num) {o : EnqueueOptions Num W}
      → build_enqueue_options R P body ≡ some o
      → (o.queue, o.priority, o.max_attempts) ≡ plain_from body (map_field (text "options") body)
  unfolding build_enqueue_options
  build_enqueue_options-plain body h = elim (Option-cases (map_field (text "options") body)) [
    | inl e ↦
        let s = read_options R P body (nothing_read R P) in
        let b = built-some s (rw (e, build_enqueue_options) at h) in
        rw e (ap plain (sym b) ∙ plain-read_options body)
    | inr (nested, e) ↦
        let s = read_options R P nested (nothing_read R P) in
        let b = built-some (read_fallbacks R P body s) (rw (e, build_enqueue_options) at h) in
        let n = plain-read_options nested in
        rw e (
          ap plain (sym b)
          ∙ (plain-read_fallbacks body s
              ∙ ap
                  (λ (t : Text × ℤ × ℤ). (
                    text_or t.0 (plain_in body).0,
                    int_or t.1 (plain_in body).1,
                    int_or t.2 (plain_in body).2,
                  ))
                  n))
  ]
