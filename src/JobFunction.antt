-- ===== src/JobFunction.antt =====
-- `QueueJobFunction` of integration_queue_job/models/queue_job_function.py: names of job functions, retry
-- patterns and the configuration of a job. `search` goes through the records in order.
pub mod Names
pub mod Decimals
pub mod Patterns
pub mod Stored
use integration_queue.Prelude.{
  ℕ, Bool, true, false, ◌&&◌, ◌||◌, not, List, [], ◌∷◌, ◌++◌, map, Option, none, some,
  if◌then◌else◌, ◌==◌, leb, ltb, ℤ, pos, negsuc, Text, text, text_eq, is_digit, parse_int,
}
use integration_queue.Job.Store.{truthy}
use integration_queue.Job.Create.{or_default}

-- `[0-9a-z_\.]` and `[0-9a-zA-Z_]`
unfoldable pub is_model_char : ℕ → Bool
unfolding is_digit
is_model_char c = is_digit c || (leb b'a' c && leb c b'z' || (c == b'_' || c == b'.'))

unfoldable pub is_method_char : ℕ → Bool
unfolding is_digit
is_method_char c =
    is_digit c || (leb b'a' c && leb c b'z' || (leb b'A' c && leb c b'Z' || c == b'_'))

-- The longest prefix of such characters, and the rest.
unfoldable pub span : (ℕ → Bool) → Text → Text × Text
span test [] = ([], [])
span test (c ∷ s) =
    let (prefix, rest) = span test s in if test c then (c ∷ prefix, rest) else ([], c ∷ s)

-- `$` matches at the end, and before a newline there.
unfoldable pub is_end : Text → Bool
is_end [] = true
is_end (c ∷ []) = c == 10
is_end (c ∷ d ∷ s) = false

unfoldable pub match_method : Text → Text × Text → Option (Text × Text)
unfolding is_end
match_method model ([], rest) = none
match_method model (c ∷ method, rest) = if is_end rest then some (model, c ∷ method) else none

unfoldable pub match_model : Text × Text → Option (Text × Text)
unfolding match_method span is_method_char
match_model ([], rest) = none
match_model (c ∷ model, []) = none
match_model (c ∷ model, d ∷ []) = none
match_model (c ∷ model, d ∷ e ∷ rest) =
    if d == b'>' && e == b'.' then match_method (c ∷ model) (span is_method_char rest) else none

-- `regex_job_function_name.match(name)`, as its two groups.
unfoldable pub match_name : Text → Option (Text × Text)
unfolding match_model span is_model_char
match_name [] = none
match_name (c ∷ s) = if c == b'<' then match_model (span is_model_char s) else none

unfoldable pub job_function_name : Text → Text → Text
job_function_name model_name method_name = b'<' ∷ (model_name ++ (b'>' ∷ b'.' ∷ method_name))

-- The values of a serialised retry pattern; `real` is a float, `null` is None.
mutual
  pub data Value : Type 0 where
    integer : ℤ → Value
    word : Text → Value
    real : Value
    null : Value
    items : Values → Value

  pub data Values : Type 0 where
    nil : Values
    cons : Value → Values → Values

abbrev pub Pattern : Type 0
Pattern = List (Text × Value)

-- How a test of a value ends.
pub data Check : Type 0 where
  passes value_error type_error : Check

abbrev pub and_check : Check → Check → Check
and_check passes c = c
and_check value_error c = value_error
and_check type_error c = type_error

unfoldable pub int_check : Option ℤ → Check
int_check none = value_error
int_check (some n) = passes

-- `_retry_value_type_check`
unfoldable mutual
  unfolding int_check

  pub retry_value_type_check : Value → Check
  retry_value_type_check (integer n) = passes
  retry_value_type_check (word s) = int_check (parse_int s)
  retry_value_type_check real = passes
  retry_value_type_check null = type_error
  retry_value_type_check (items vs) = pair_check vs

  pub pair_check : Values → Check
  pair_check nil = value_error
  pair_check (cons a nil) = value_error
  pair_check (cons a (cons b nil)) = and_check (retry_value_type_check a) (retry_value_type_check b)
  pair_check (cons a (cons b (cons c vs))) = value_error

unfoldable pub check_keys : Pattern → Check
check_keys [] = passes
check_keys ((key, v) ∷ p) = and_check (retry_value_type_check (word key)) (check_keys p)

unfoldable pub check_values : Pattern → Check
check_values [] = passes
check_values ((key, v) ∷ p) = and_check (retry_value_type_check v) (check_values p)

-- `_check_retry_pattern` of one record; a `value_error` is shown to the user.
unfoldable pub check_retry_pattern : Pattern → Check
unfolding check_keys check_values
check_retry_pattern p = and_check (check_keys p) (check_values p)

-- What a postponed try waits: seconds, or the elements of a tuple.
pub data Postpone : Type 0 where
  seconds : ℤ → Postpone
  tuple : List Value → Postpone

unfoldable pub elements : Values → List Value
elements nil = []
elements (cons v vs) = v ∷ elements vs

-- The value, or `tuple(value)`; `none` is the TypeError.
unfoldable pub postpone_of : Value → Option Postpone
unfolding elements
postpone_of (integer n) = some (seconds n)
postpone_of (word s) = some (tuple (map (λ c. word (c ∷ [])) s))
postpone_of real = none
postpone_of null = none
postpone_of (items vs) = some (tuple (elements vs))

abbrev pub int_eq : ℤ → ℤ → Bool
int_eq (pos m) (pos n) = m == n
int_eq (negsuc m) (negsuc n) = m == n
int_eq _ _ = false

-- `retry_pattern[key] = value`
unfoldable pub put_pattern : ℤ → Postpone → List (ℤ × Postpone) → List (ℤ × Postpone)
put_pattern k v [] = (k, v) ∷ []
put_pattern k v ((j, w) ∷ rest) =
    if int_eq j k then (j, v) ∷ rest else (j, w) ∷ put_pattern k v rest

-- How `_parse_retry_pattern` ends: with the pattern, with the empty one after a ValueError, or with a
-- TypeError.
pub data Parsed : Type 0 where
  parsed : List (ℤ × Postpone) → Parsed
  fallback : Parsed
  raises_type_error : Parsed

-- The loop; the value is computed before the key.
unfoldable pub parse_items : Pattern → List (ℤ × Postpone) → Parsed
unfolding postpone_of put_pattern
parse_items [] so_far = parsed so_far
parse_items ((try_count, v) ∷ p) so_far = elim (postpone_of v) [
  | none ↦ raises_type_error
  | some postpone ↦ elim (parse_int try_count) [
    | none ↦ fallback
    | some n ↦ parse_items p (put_pattern n postpone so_far)
  ]
]

unfoldable pub parse_retry_pattern : Pattern → Parsed
unfolding parse_items
parse_retry_pattern p = parse_items p []

-- The dictionary `related_action` of a record; `kwargs` is kept as its text.
pub record RelatedAction : Type 0 where
  pub enable : Option Bool
  pub func_name : Option Text
  pub kwargs : Option Text

pub record JobFunction : Type 0 where
  pub id : ℕ
  pub name : Text
  pub model : Option Text
  pub method : Option Text
  pub channel : Text
  pub retry_pattern : Pattern
  pub related_action : RelatedAction

pub record JobConfig : Type 0 where
  pub channel : Text
  pub retry_pattern : List (ℤ × Postpone)
  pub related_action_enable : Bool
  pub related_action_func_name : Option Text
  pub related_action_kwargs : Text
  pub job_function_id : Option ℕ

unfoldable pub compute_name : JobFunction → JobFunction
unfolding job_function_name truthy
compute_name f = elim f.model [
  | none ↦ record f { name = [] }
  | some model ↦ elim (truthy f.method) [
    | none ↦ record f { name = [] }
    | some method ↦ record f { name = job_function_name model method }
  ]
]

-- How `_inverse_name` ends; the models are those of `ir.model`.
pub data Inverse : Type 0 where
  invalid_name model_not_found : Inverse
  renamed : JobFunction → Inverse

unfoldable pub has_text : Text → List Text → Bool
has_text s [] = false
has_text s (t ∷ ts) = text_eq t s || has_text s ts

unfoldable pub inverse_name : List Text → JobFunction → Inverse
unfolding match_name has_text
inverse_name models f = elim (match_name f.name) [
  | none ↦ invalid_name
  | some groups ↦
      if has_text groups.0 models
      then renamed (record f { model = some groups.0; method = some groups.1 })
      else model_not_found
]

unfoldable pub search_name : Text → List JobFunction → Option JobFunction
search_name name [] = none
search_name name (f ∷ fs) = if text_eq f.name name then some f else search_name name fs

abbrev pub job_default_config : JobConfig
job_default_config = record {
  channel = text "root";
  retry_pattern = [];
  related_action_enable = true;
  related_action_func_name = none;
  related_action_kwargs = text "{}";
  job_function_id = none;
}

-- A TypeError of the pattern is that of `job_config`, which is `none`.
unfoldable pub pattern_or_none : Parsed → Option (List (ℤ × Postpone))
pattern_or_none (parsed p) = some p
pattern_or_none fallback = some []
pattern_or_none raises_type_error = none

unfoldable pub job_config : Text → List JobFunction → Option JobConfig
unfolding search_name parse_retry_pattern pattern_or_none or_default
job_config name functions = elim (search_name name functions) [
  | none ↦ some job_default_config
  | some config ↦ elim (pattern_or_none (parse_retry_pattern config.retry_pattern)) [
    | none ↦ none
    | some p ↦ some (record {
      channel = config.channel;
      retry_pattern = p;
      related_action_enable = or_default true config.related_action.enable;
      related_action_func_name = config.related_action.func_name;
      related_action_kwargs = or_default (text "{}") config.related_action.kwargs;
      job_function_id = some config.id;
    })
  ]
]
