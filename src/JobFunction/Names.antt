-- ===== src/JobFunction/Names.antt =====
-- The names of job functions and what the regular expression makes of them.
use mathlib.Core.List.{append_assoc, append-nil}
use integration_queue.Prelude.{
  ℕ, ◌≡◌, ◌↔◌, ◌⊎◌, refl, sym, ap, ◌∙◌, Bool, true, false, ◌&&◌, [], ◌∷◌, ◌++◌, Option, none, some,
  ◌==◌, ==_iff, Text, arith, Bool-cases, inl, inr,
}
use integration_queue.JobFunction.{
  is_model_char, is_method_char, span, is_end, match_method, match_model, match_name,
  job_function_name,
}

abbrev pub all_of : (ℕ → Bool) → Text → Bool
all_of test [] = true
all_of test (c ∷ s) = test c && all_of test s

abbrev pub is_blank : Text → Bool
is_blank [] = true
is_blank (c ∷ s) = false

-- What the two groups of the expression may be.
pub record AreGroups (model method : Text) : Type 0 where
  pub model_chars : all_of is_model_char model ≡ true
  pub method_chars : all_of is_method_char method ≡ true
  pub some_model : is_blank model ≡ false
  pub some_method : is_blank method ≡ false

module _ (test : ℕ → Bool) where
  span-append : (s : Text) → (span test s).0 ++ (span test s).1 ≡ s
  unfolding span
  span-append [] = refl
  span-append (c ∷ s) = elim (Bool-cases (test c)) [
    | inl e ↦ rw (e, span) (ap (λ t. c ∷ t) (span-append s))
    | inr e ↦ rw (e, span) refl
  ]

  all_of-span : (s : Text) → all_of test (span test s).0 ≡ true
  unfolding span
  all_of-span [] = refl
  all_of-span (c ∷ s) = elim (Bool-cases (test c)) [
    | inl e ↦ rw (e, span) (rw e (all_of-span s))
    | inr e ↦ rw (e, span) refl
  ]

  -- The span ends where the characters do.
  span_stops :
      (p r : Text) (c : ℕ)
      → all_of test p ≡ true
      → test c ≡ false
      → span test (p ++ c ∷ r) ≡ (p, c ∷ r)
  unfolding span
  span_stops [] r c a h = rw (h, span) refl
  span_stops (d ∷ p) r c a h =
      let here : test d ≡ true = ground (arith, a) in
      rw (here, span) (ap (λ x. (d ∷ x.0, x.1)) (span_stops p r c (ground (arith, a)) h))

  span_all : (p : Text) → all_of test p ≡ true → span test p ≡ (p, [])
  unfolding span
  span_all [] a = refl
  span_all (d ∷ p) a =
      let here : test d ≡ true = ground (arith, a) in
      rw (here, span) (ap (λ x. (d ∷ x.0, x.1)) (span_all p (ground (arith, a))))

-- The name, with or without a newline at its end.
abbrev pub Spells : Text → Text → Text → Type 0
Spells s model method =
    (s ≡ job_function_name model method) ⊎ (s ≡ job_function_name model method ++ 10 ∷ [])

match_method-some :
    (model : Text) (method : Text) (rest : Text)
    → is_blank method ≡ false
    → is_end rest ≡ true
    → match_method model (method, rest) ≡ some (model, method)
unfolding match_method
match_method-some model [] rest n e = ground (arith, n)
match_method-some model (c ∷ method) rest n e = rw (e, match_method) refl

groups : Option (Text × Text) → Text × Text
groups none = ([], [])
groups (some g) = g

match_method_inverse :
    (model m f : Text) (x : Text × Text)
    → match_method model x ≡ some (m, f)
    → (model ≡ m) × (x.0 ≡ f) × (is_blank f ≡ false) × (is_end x.1 ≡ true)
unfolding match_method groups
match_method_inverse model m f ([], rest) h = absurd (ground (arith, h))
match_method_inverse model m f (c ∷ method, rest) h = elim (Bool-cases (is_end rest)) [
  | inl e ↦
      let same = ap groups (sym (match_method-some model (c ∷ method) rest refl e) ∙ h) in
      (ap (λ g. g.0) same, ap (λ g. g.1) same, ap is_blank (sym (ap (λ g. g.1) same)), e)
  | inr e ↦ absurd (ground (arith, h, e))
]

-- What follows the model in a name that matches.
record After (model method rest : Text) : Type 0 where
  tail : Text
  starts : rest ≡ b'>' ∷ b'.' ∷ tail
  spells : (span is_method_char tail).0 ≡ method
  ends : is_end (span is_method_char tail).1 ≡ true
  some_model : is_blank model ≡ false
  some_method : is_blank method ≡ false

match_model_inverse :
    (m f : Text) (x : Text × Text) → match_model x ≡ some (m, f) → (x.0 ≡ m) × After m f x.1
unfolding match_model
match_model_inverse m f ([], rest) h = absurd (ground (arith, h))
match_model_inverse m f (c ∷ model, []) h = absurd (ground (arith, h))
match_model_inverse m f (c ∷ model, d ∷ []) h = absurd (ground (arith, h))
match_model_inverse m f (c ∷ model, d ∷ e ∷ rest) h = elim (Bool-cases (d == b'>' && e == b'.')) [
  | inr other ↦ absurd (ground (arith, other, h))
  | inl same ↦
      let inner : match_method (c ∷ model) (span is_method_char rest) ≡ some (m, f) =
        sym (rw (same, match_model) refl) ∙ h in
      let (m_is, f_is, n, ends) =
        match_method_inverse (c ∷ model) m f (span is_method_char rest) inner in
      (
        m_is,
        record {
          tail = rest;
          starts =
              ap (λ a. a ∷ e ∷ rest) ((==_iff d b'>').0 (ground (arith, same)))
              ∙ ap (λ b. b'>' ∷ b ∷ rest) ((==_iff e b'.').0 (ground (arith, same)));
          spells = f_is;
          ends = ends;
          some_model = ap is_blank (sym m_is);
          some_method = n;
        },
      )
]

match_model-some :
    (c : ℕ) (model method : Text) (rest ends : Text)
    → span is_method_char rest ≡ (method, ends)
    → is_blank method ≡ false
    → is_end ends ≡ true
    → match_model (c ∷ model, b'>' ∷ b'.' ∷ rest) ≡ some (c ∷ model, method)
unfolding match_model
match_model-some c model method rest ends s n e =
    ap (match_method (c ∷ model)) s ∙ match_method-some (c ∷ model) method ends n e

-- The text of an end.
ends_with_newline : (r : Text) → is_end r ≡ true → (r ≡ []) ⊎ (r ≡ 10 ∷ [])
unfolding is_end
ends_with_newline [] h = inl refl
ends_with_newline (c ∷ []) h = inr (ap (λ d. d ∷ []) ((==_iff c 10).0 h))
ends_with_newline (c ∷ d ∷ r) h = absurd (ground (arith, h))

not_method : is_method_char 10 ≡ false
unfolding is_method_char
not_method = refl

not_model : is_model_char b'>' ≡ false
unfolding is_model_char
not_model = refl

-- A text that starts as a name does.
after_names :
    (model method t ends : Text)
    → AreGroups model method
    → span is_method_char t ≡ (method, ends)
    → is_end ends ≡ true
    → match_name (b'<' ∷ (model ++ (b'>' ∷ b'.' ∷ t))) ≡ some (model, method)
unfolding match_name
after_names [] method t ends n s e = absurd (ground (arith, n.some_model))
after_names (c ∷ model) method t ends n s e =
    ap match_model (span_stops is_model_char (c ∷ model) (b'.' ∷ t) b'>' n.model_chars not_model)
    ∙ match_model-some c model method t ends s n.some_method e

Spells-match_name :
    (s model method : Text)
    → AreGroups model method
    → Spells s model method
    → match_name s ≡ some (model, method)
unfolding job_function_name is_end
Spells-match_name s model method n (inl e) =
    ap match_name e
    ∙ after_names model method method [] n (span_all is_method_char method n.method_chars) refl
Spells-match_name s model method n (inr e) =
    ap match_name (e ∙ ap (λ t. b'<' ∷ t) (append_assoc model (b'>' ∷ b'.' ∷ method) (10 ∷ [])))
    ∙ after_names model method (method ++ 10 ∷ []) (10 ∷ []) n
        (span_stops is_method_char method [] 10 n.method_chars not_method) refl

match_name-Spells :
    (s model method : Text)
    → match_name s ≡ some (model, method)
    → AreGroups model method × Spells s model method
unfolding match_name job_function_name
match_name-Spells [] model method h = absurd (ground (arith, h))
match_name-Spells (c ∷ s) model method h = elim (Bool-cases (c == b'<')) [
  | inr other ↦ absurd (ground (arith, other, h))
  | inl same ↦
      let inner : match_model (span is_model_char s) ≡ some (model, method) =
        sym (rw (same, match_name) refl) ∙ h in
      let (m_is, after) = match_model_inverse model method (span is_model_char s) inner in
      let whole : s ≡ model ++ (b'>' ∷ b'.' ∷ after.tail) =
        sym (span-append is_model_char s)
        ∙ ap (λ m. m ++ (span is_model_char s).1) m_is
        ∙ ap (λ r. model ++ r) after.starts in
      let tail_is : after.tail ≡ method ++ (span is_method_char after.tail).1 =
        sym (span-append is_method_char after.tail)
        ∙ ap (λ f. f ++ (span is_method_char after.tail).1) after.spells in
      let spelled = λ (r : Text) (e : (span is_method_char after.tail).1 ≡ r).
        ap (λ a. a ∷ s) ((==_iff c b'<').0 same)
        ∙ ap (λ t. b'<' ∷ t)
            (whole ∙ ap (λ t. model ++ (b'>' ∷ b'.' ∷ t)) (tail_is ∙ ap (λ x. method ++ x) e)) in
      (
        record {
          model_chars = ap (all_of is_model_char) (sym m_is) ∙ all_of-span is_model_char s;
          method_chars =
              ap (all_of is_method_char) (sym after.spells) ∙ all_of-span is_method_char after.tail;
          some_model = after.some_model;
          some_method = after.some_method;
        },
        elim (ends_with_newline (span is_method_char after.tail).1 after.ends) [
          | inl e ↦
              inl (spelled [] e ∙ ap (λ x. b'<' ∷ (model ++ (b'>' ∷ b'.' ∷ x))) (append-nil method))
          | inr e ↦ inr (
              spelled (10 ∷ []) e
              ∙ ap (λ t. b'<' ∷ t) (sym (append_assoc model (b'>' ∷ b'.' ∷ method) (10 ∷ []))))
        ],
      )
]

-- The expression gives a model and a method back just from the name of the two, with or without a
-- newline at its end, if they are not empty and have the characters that names have.
pub match_name-job_function_name :
    (s model method : Text)
    → (match_name s ≡ some (model, method)) ↔ (AreGroups model method × Spells s model method)
match_name-job_function_name s model method =
    (λ h. match_name-Spells s model method h, λ h. Spells-match_name s model method h.0 h.1)
