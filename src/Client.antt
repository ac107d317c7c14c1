-- ===== src/Client.antt =====
-- runner/grpc/client.go: the calls that a step of the gRPC runner makes. The functions of
-- google.protobuf, of package time and of the generated code that it uses are fields of `Protobuf`;
-- the service behind the connection is an argument of Client/Calls, of the type in Client/Services.
pub mod Messages
pub mod Settings
pub mod Options
pub mod Bodies
pub mod Requests
pub mod Maps
pub mod Services
pub mod Calls
pub mod Targets
pub mod Durations
pub mod Statuses
use ojs_conformance.Common.{
  ℕ, ◌-◌, ◌+◌, ◌*◌, ◌%◌, ◌^◌, Text, text, ℤ, pos, negsuc, ltb, Bool, List, [], ◌∷◌, Option, none,
  some, ◌==◌, has_suffix, trim_prefix, length, take, if◌then◌else◌, ◌>>=◌,
}
use ojs_conformance.Adapter.{Code}
use ojs_conformance.Json.{Runtime, Value, Values, Entries, get_entry}
use ojs_conformance.Client.Messages.{Conflict}

pub record Protobuf (Num W : Type 0) : Type 0 where
  -- the conversion int32(v) of a float64
  pub int32_of : Num → ℤ
  -- Duration.Seconds
  pub to_seconds : ℤ → Num
  -- time.ParseDuration
  pub parse_duration : Text → Option ℤ
  -- timestamppb.New of time.Parse(time.RFC3339Nano, s), and AsTime().Format(time.RFC3339Nano)
  pub parse_time : Text → Option W
  pub format_time : W → Text
  -- structpb.NewValue, structpb.NewStruct, Value.AsInterface and Struct.AsMap
  pub new_value : Value Num → Option W
  pub new_struct : Entries Num → Option W
  pub as_interface : W → Value Num
  pub as_map : W → Entries Num
  -- strings.ToLower and strings.ToUpper
  pub to_lower : Text → Text
  pub to_upper : Text → Text
  -- the map JobState_value, and the methods String of the enumerations
  pub job_state_value : Text → Option ℤ
  pub job_state : ℤ → Text
  pub worker_state : ℤ → Text
  pub health_status : ℤ → Text
  pub workflow_state : ℤ → Text
  pub step_state : ℤ → Text
  pub conflict : Conflict → Text
  pub code : Code → Text

-- strings.SplitN(s, "/", 2)[0]
unfoldable pub first_segment : Text → Text
first_segment [] = []
first_segment (c ∷ cs) = let rest = first_segment cs in if c == b'/' then [] else c ∷ rest

-- extractIDFromPath
unfoldable pub extract_id_from_path : Text → Text → Text
unfolding trim_prefix first_segment
extract_id_from_path path prefix = first_segment (trim_prefix path prefix)

-- strings.TrimSuffix(s, p)
unfoldable pub trim_suffix : Text → Text → Text
unfolding has_suffix
trim_suffix s p = if has_suffix s p then take (length s - length p) s else s

-- The int64 that the low 64 bits of an integer are.
abbrev pub signed64 : ℕ → ℤ
signed64 r = if ltb r (2 ^ 63) then pos r else negsuc (2 ^ 64 - 1 - r)

unfoldable pub wrap64 : ℤ → ℤ
wrap64 (pos n) = signed64 (n % 2 ^ 64)
wrap64 (negsuc n) = signed64 (2 ^ 64 - 1 - n % 2 ^ 64)

abbrev pub nanoseconds : ℤ → ℤ
nanoseconds (pos n) = pos (n * 1000000000)
nanoseconds (negsuc n) = negsuc (n * 1000000000 + 999999999)

module _ {Num : Type 0} where
  -- The type assertions on an entry of a map.
  abbrev pub text_in : Value Num → Option Text
  text_in (Value.string s) = some s
  text_in _ = none

  abbrev pub number_in : Value Num → Option Num
  number_in (Value.float64 x) = some x
  number_in _ = none

  abbrev pub list_in : Value Num → Option (Values Num)
  list_in (Value.array vs) = some vs
  list_in _ = none

  abbrev pub map_in : Value Num → Option (Entries Num)
  map_in (Value.object es) = some es
  map_in _ = none

  abbrev pub text_field : Text → Entries Num → Option Text
  text_field k es = get_entry k es >>= text_in

  abbrev pub number_field : Text → Entries Num → Option Num
  number_field k es = get_entry k es >>= number_in

  abbrev pub list_field : Text → Entries Num → Option (Values Num)
  list_field k es = get_entry k es >>= list_in

  abbrev pub map_field : Text → Entries Num → Option (Entries Num)
  map_field k es = get_entry k es >>= map_in

  -- The loops that keep the strings of a list.
  unfoldable pub texts_in : Values Num → List Text
  texts_in Values.nil = []
  texts_in (Values.cons (Value.string s) vs) = s ∷ texts_in vs
  texts_in (Values.cons _ vs) = texts_in vs

module _ {Num W : Type 0} (P : Protobuf Num W) where
  -- The loops that keep what structpb.NewValue converts.
  unfoldable pub values_in : Values Num → List W
  values_in Values.nil = []
  values_in (Values.cons v vs) =
      let rest = values_in vs in elim (P.new_value v) [ none ↦ rest | some w ↦ w ∷ rest ]

-- time.Duration(v) * time.Second
unfoldable pub seconds : {Num : Type 0} → Runtime Num → Num → ℤ
unfolding wrap64
seconds R x = wrap64 (nanoseconds (R.int64_of x))
