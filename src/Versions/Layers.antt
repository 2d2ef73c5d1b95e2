-- ===== src/Versions/Layers.antt =====
-- The order of the layers of environment files.
use hpa_with_bmad.Base.{
  String, Option, none, some, List, [], ◌∷◌, ◌≡◌, refl, arith, lookup, has_key, string_eq, ◌==◌,
  ==_iff, if◌then◌else◌, lookup-insert, Option-cases, inl, inr,
}
use hpa_with_bmad.Versions.{Environ, setdefault, or_else, parse_line, load_lines, load_dotenv}

-- The first value that the lines give a variable.
abbrev pub first : String → List String → Option String
first k [] = none
first k (raw ∷ lines) = elim (parse_line raw) [
  | none ↦ first k lines
  | some (j, v) ↦ if j == k then some v else first k lines
]

-- The first value that the files give it, in their order.
abbrev pub first_in : String → List (Option (List String)) → Option String
first_in k [] = none
first_in k (none ∷ files) = first_in k files
first_in k (some lines ∷ files) = or_else (first k lines) (first_in k files)

lookup-setdefault :
    (k j v : String) (d : Environ)
    → lookup j (setdefault k v d) ≡ or_else (lookup j d) (if k == j then some v else none)
unfolding setdefault has_key
lookup-setdefault k j v d = ground (arith, lookup-insert k j v d, ==_iff k j)

or_else_assoc : (a b c : Option String) → or_else (or_else a b) c ≡ or_else a (or_else b c)
or_else_assoc none b c = refl
or_else_assoc (some a) b c = refl

lookup-load_lines :
    (k : String) (lines : List String) (env : Environ)
    → lookup k (load_lines lines env) ≡ or_else (lookup k env) (first k lines)
unfolding load_lines
lookup-load_lines k [] env = ground arith
lookup-load_lines k (raw ∷ lines) env = elim (Option-cases (parse_line raw)) [
  | inl e ↦ rw (e, load_lines, first) (lookup-load_lines k lines env)
  | inr ((j, v), e) ↦
      rw (e, load_lines, first)
        (rw (lookup-load_lines k lines (setdefault j v env), lookup-setdefault j k v env)
          (ground arith))
]

-- The order of the layers, in full: a variable has the value of the process environment where that
-- sets it, and else the first value that any line of any file gives it, files and lines taken in
-- their order. So an assignment never replaces an earlier one, inside one file neither.
pub lookup-load_dotenv :
    (k : String) (files : List (Option (List String))) (env : Environ)
    → lookup k (load_dotenv files env) ≡ or_else (lookup k env) (first_in k files)
unfolding load_dotenv
lookup-load_dotenv k [] env = ground arith
lookup-load_dotenv k (none ∷ files) env = lookup-load_dotenv k files env
lookup-load_dotenv k (some lines ∷ files) env =
    rw (lookup-load_dotenv k files (load_lines lines env), lookup-load_lines k lines env)
      (or_else_assoc (lookup k env) (first k lines) (first_in k files))
