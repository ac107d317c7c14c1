-- ===== src/Client/Options/Found.antt =====
-- When buildEnqueueOptions returns options, and when it returns nil.
use ojs_conformance.Common.{
  text, Bool, false, ◌||◌, Option, none, some, str_eq, ◌≡◌, ◌↔◌, ◌∙◌, refl, ap, arith, inl, inr,
  Option-cases, ◌>>=◌,
}
use ojs_conformance.Json.{Runtime, Entries}
use ojs_conformance.Client.{Protobuf, text_field, number_field, list_field, map_field}
use ojs_conformance.Client.Settings.{
  found, read, fall_back, built, read-found, read-blank, fall_back-found, fall_back-blank,
  built-none_iff,
}
use ojs_conformance.Client.Options.{
  set_queue, set_priority, set_attempts, add_tags, set_trace, set_start, set_timeout, set_ttl,
  set_retry, set_unique, set_meta, retry_in, unique_in, no_queue, no_priority, no_attempts,
  nothing_read, Reading, duration_field, seconds_field, read_retry, read_unique, read_plain,
  read_labels, read_times, read_objects, read_fallbacks, read_options, build_enqueue_options,
}

module _ {Num W : Type 0} (R : Runtime Num) (P : Protobuf Num W) where
  -- A retry policy that sets something.
  abbrev retry_found : Entries Num → Bool
  retry_found es =
      (((((((found (number_field (text "max_attempts") es)
                    || found (seconds_field R P (text "initial_interval") es))
                  || found (seconds_field R P (text "initial_delay") es))
                || found (duration_field R P (text "initial_interval") es))
              || found (seconds_field R P (text "max_interval") es))
            || found (seconds_field R P (text "max_delay") es))
          || found (number_field (text "multiplier") es))
        || found (number_field (text "backoff_coefficient") es))

  read_retry-found : (es : Entries Num) → (read_retry R P es).1 ≡ retry_found es
  unfolding read_retry
  read_retry-found es = simp read-found

  -- A unique policy that sets something.
  abbrev unique_found : Entries Num → Bool
  unique_found es =
      (((((found (text_field (text "key") es) || found (list_field (text "key") es))
              || found (seconds_field R P (text "period") es))
            || found (duration_field R P (text "period") es))
          || found (text_field (text "on_conflict") es))
        || found (list_field (text "states") es))

  read_unique-found : (es : Entries Num) → (read_unique R P es).1 ≡ unique_found es
  unfolding read_unique
  read_unique-found es = simp read-found

  -- A policy object that sets something.
  abbrev if_found : (Entries Num → Bool) → Option (Entries Num) → Bool
  if_found p none = false
  if_found p (some es) = p es

  built-found :
      {O : Type 0} (p : Entries Num → Bool) (f : Entries Num → O × Bool)
      → ((es : Entries Num) → (f es).1 ≡ p es)
      → (o : Option (Entries Num)) → found (o >>= λ es. built (f es)) ≡ if_found p o
  built-found p f h none = refl
  built-found p f h (some es) = let e = h es in ground arith

  -- A key of the options that has a value of its kind.
  abbrev source_found : Entries Num → Bool
  source_found src =
      ((((((((((((found (text_field (text "queue") src)
                              || found (number_field (text "priority") src))
                            || found (number_field (text "max_attempts") src))
                          || found (list_field (text "tags") src))
                        || found (text_field (text "trace_id") src))
                      || found (text_field (text "scheduled_at") src >>= P.parse_time))
                    || found (seconds_field R P (text "timeout") src))
                  || found (duration_field R P (text "timeout") src))
                || found (seconds_field R P (text "ttl") src))
              || found (duration_field R P (text "ttl") src))
            || if_found retry_found (map_field (text "retry") src))
          || if_found unique_found (map_field (text "unique") src))
        || found (map_field (text "meta") src >>= P.new_struct))

  read_options-found :
      (src : Entries Num) → (read_options R P src (nothing_read R P)).1 ≡ source_found src
  unfolding read_plain read_labels read_times read_objects
  read_options-found src =
      let retry =
        built-found retry_found (read_retry R P) read_retry-found (map_field (text "retry") src) in
      let unique =
        built-found unique_found (read_unique R P) read_unique-found
          (map_field (text "unique") src) in
      rw (← retry) (rw (← unique) (simp read-found))

  -- While the flag is not set the options are blank.
  abbrev BlankUnlessFound : Reading R P → Type 0
  BlankUnlessFound s = s.1 ≡ false → s.0 ≡ (nothing_read R P).0

  read_plain-blank :
      (src : Entries Num) (s : Reading R P)
      → BlankUnlessFound s
      → BlankUnlessFound (read_plain R P src s)
  unfolding read_plain
  read_plain-blank src s0 h0 =
      let s1 = read s0 (text_field (text "queue") src) (set_queue R P) in
      let h1 = read-blank s0 (text_field (text "queue") src) (set_queue R P) h0 in
      let s2 = read s1 (number_field (text "priority") src) (set_priority R P) in
      let h2 = read-blank s1 (number_field (text "priority") src) (set_priority R P) h1 in
      read-blank s2 (number_field (text "max_attempts") src) (set_attempts R P) h2

  read_labels-blank :
      (src : Entries Num) (s : Reading R P)
      → BlankUnlessFound s
      → BlankUnlessFound (read_labels R P src s)
  unfolding read_labels
  read_labels-blank src s0 h0 =
      let s1 = read s0 (list_field (text "tags") src) (add_tags R P) in
      let h1 = read-blank s0 (list_field (text "tags") src) (add_tags R P) h0 in
      read-blank s1 (text_field (text "trace_id") src) (set_trace R P) h1

  read_times-blank :
      (src : Entries Num) (s : Reading R P)
      → BlankUnlessFound s
      → BlankUnlessFound (read_times R P src s)
  unfolding read_times
  read_times-blank src s0 h0 =
      let s1 = read s0 (text_field (text "scheduled_at") src >>= P.parse_time) (set_start R P) in
      let h1 =
        read-blank s0 (text_field (text "scheduled_at") src >>= P.parse_time) (set_start R P) h0 in
      let s2 = read s1 (seconds_field R P (text "timeout") src) (set_timeout R P) in
      let h2 = read-blank s1 (seconds_field R P (text "timeout") src) (set_timeout R P) h1 in
      let s3 = read s2 (duration_field R P (text "timeout") src) (set_timeout R P) in
      let h3 = read-blank s2 (duration_field R P (text "timeout") src) (set_timeout R P) h2 in
      let s4 = read s3 (seconds_field R P (text "ttl") src) (set_ttl R P) in
      let h4 = read-blank s3 (seconds_field R P (text "ttl") src) (set_ttl R P) h3 in
      read-blank s4 (duration_field R P (text "ttl") src) (set_ttl R P) h4

  read_objects-blank :
      (src : Entries Num) (s : Reading R P)
      → BlankUnlessFound s
      → BlankUnlessFound (read_objects R P src s)
  unfolding read_objects
  read_objects-blank src s0 h0 =
      let s1 = read s0 (retry_in R P src) (set_retry R P) in
      let h1 = read-blank s0 (retry_in R P src) (set_retry R P) h0 in
      let s2 = read s1 (unique_in R P src) (set_unique R P) in
      let h2 = read-blank s1 (unique_in R P src) (set_unique R P) h1 in
      read-blank s2 (map_field (text "meta") src >>= P.new_struct) (set_meta R P) h2

  read_options-BlankUnlessFound :
      (src : Entries Num) → BlankUnlessFound (read_options R P src (nothing_read R P))
  read_options-BlankUnlessFound src =
      let s1 = read_plain R P src (nothing_read R P) in
      let s2 = read_labels R P src s1 in
      let s3 = read_times R P src s2 in
      let h1 = read_plain-blank src (nothing_read R P) (λ _. refl) in
      read_objects-blank src s3 (read_times-blank src s2 (read_labels-blank src s1 h1))

  -- The flag of the whole.
  abbrev pub options_found : Entries Num → Bool
  options_found body = elim (map_field (text "options") body) [
    | none ↦ source_found body
    | some nested ↦
        (((source_found nested || found (text_field (text "queue") body))
            || found (number_field (text "priority") body))
          || found (number_field (text "max_attempts") body))
  ]

  read_fallbacks-found :
      (body : Entries Num) (s : Reading R P)
      → BlankUnlessFound s
      → (read_fallbacks R P body s).1 ≡ (
          ((s.1 || found (text_field (text "queue") body))
            || found (number_field (text "priority") body))
          || found (number_field (text "max_attempts") body))
  unfolding read_fallbacks str_eq
  read_fallbacks-found body s h =
      let queue = text_field (text "queue") body in
      let priority = number_field (text "priority") body in
      let attempts = number_field (text "max_attempts") body in
      let s1 = fall_back s (no_queue R P) queue (set_queue R P) in
      let s2 = fall_back s1 (no_priority R P) priority (set_priority R P) in
      let b1 = fall_back-blank s (no_queue R P) queue (set_queue R P) h in
      let b2 = fall_back-blank s1 (no_priority R P) priority (set_priority R P) b1 in
      let e1 = fall_back-found s (no_queue R P) queue (set_queue R P) refl h in
      let e2 = fall_back-found s1 (no_priority R P) priority (set_priority R P) refl b1 in
      let e3 = fall_back-found s2 (no_attempts R P) attempts (set_attempts R P) refl b2 in
      e3 ∙ ap (λ b. b || found attempts) (e2 ∙ ap (λ b. b || found priority) e1)

  -- buildEnqueueOptions returns nil exactly if none of the keys that it reads has a value that it
  -- can use: where the body has an object of options, the keys of this object and the queue, the
  -- priority and the attempts beside it; otherwise the keys of the body. A policy counts if one of
  -- its own keys has such a value.
  pub build_enqueue_options-none_iff :
      (body : Entries Num) → (build_enqueue_options R P body ≡ none) ↔ (options_found body ≡ false)
  unfolding build_enqueue_options
  build_enqueue_options-none_iff body = elim (Option-cases (map_field (text "options") body)) [
    | inl e ↦
        rw (e, build_enqueue_options, options_found)
          (built-none_iff (read_options R P body (nothing_read R P)) (read_options-found body))
    | inr (nested, e) ↦
        let s = read_options R P nested (nothing_read R P) in
        let keys = λ (b : Bool).
          ((b || found (text_field (text "queue") body))
            || found (number_field (text "priority") body))
          || found (number_field (text "max_attempts") body) in
        rw (e, build_enqueue_options, options_found)
          (built-none_iff (read_fallbacks R P body s) (
            read_fallbacks-found body s (read_options-BlankUnlessFound nested)
            ∙ ap keys (read_options-found nested)))
  ]
