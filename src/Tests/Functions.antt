-- ===== src/Tests/Functions.antt =====
-- The theorems on job functions at concrete inputs.
use integration_queue.Prelude.{
  ℕ, ◌≡◌, ◌↔◌, refl, List, [], ◌∷◌, some, pos, text, is_digit, digits_from, signed, strip, lstrip,
  is_space, parse_int,
}
use integration_queue.Job.Perform.{Seconds, exactly, between}
use integration_queue.JobFunction.{
  integer, real, Pattern, passes, check_retry_pattern, check_keys, check_values,
  retry_value_type_check, int_check, parsed, parse_retry_pattern, match_name,
}
use integration_queue.JobFunction.Names.{AreGroups, Spells, match_name-job_function_name}
use integration_queue.JobFunction.Patterns.{ReadsIf, has_real, check_retry_pattern-ReadsIf}
use integration_queue.JobFunction.Stored.{stored, read, parse_retry_pattern-stored}

match_name-job_function_name_example :
    (match_name (text "<res.partner>.export_one") ≡ some (text "res.partner", text "export_one"))
    ↔ (AreGroups (text "res.partner") (text "export_one")
        × Spells (text "<res.partner>.export_one") (text "res.partner") (text "export_one"))
match_name-job_function_name_example =
    match_name-job_function_name (text "<res.partner>.export_one") (text "res.partner")
      (text "export_one")

-- A pattern with a float.
abbrev with_float : Pattern
with_float = (text "1", integer (pos 10)) ∷ (text "5", real) ∷ []

with_float-passes : check_retry_pattern with_float ≡ passes
unfolding check_retry_pattern check_keys check_values retry_value_type_check int_check parse_int
    strip lstrip is_space signed digits_from is_digit
with_float-passes = refl

check_retry_pattern-ReadsIf_example : ReadsIf (has_real with_float) (parse_retry_pattern with_float)
check_retry_pattern-ReadsIf_example = check_retry_pattern-ReadsIf with_float with_float-passes

-- The second example of the field's help, up to its third entry.
abbrev ranges : List (ℕ × Seconds)
ranges = (1, between 1 10) ∷ (5, between 11 20) ∷ (10, exactly 30) ∷ []

parse_retry_pattern-stored_example :
    (check_retry_pattern (stored ranges) ≡ passes)
    × (parse_retry_pattern (stored ranges) ≡ parsed (read ranges))
parse_retry_pattern-stored_example = parse_retry_pattern-stored ranges (refl, (refl, (refl, tt)))
