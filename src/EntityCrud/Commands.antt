-- ===== src/EntityCrud/Commands.antt =====
-- What the commands on one entity do to the files and to the log.
use hpa_with_bmad.Base.{
  ℕ, length, String, true, false, none, some, [], ◌∷◌, ◌++◌, ◌≡◌, ◌≢◌, refl, sym, Dict, lookup,
  remove, string_eq, lookup-insert_self, lookup-insert_ne, lookup-remove, Bool-cases, Option-cases,
  inl, inr, ◌⊎◌, arith, eq_iff,
}
use hpa_with_bmad.Json.{null, get, Value, Fields, str, obj, entries}
use hpa_with_bmad.Json.Equality.{same_value}
use hpa_with_bmad.Http.{document}
use hpa_with_bmad.EntityCrud.Diff.{lookup-compute_change_diff, compute_change_diff, or_empty_dict}
use hpa_with_bmad.EntityCrud.{
  CrudSpec, Moment, Mutation, Store, Exit, code, raised, Arguments, member, is_authorized,
}
use hpa_with_bmad.EntityCrud.Defs.{
  log_mutation, stamped, checked, content_of, write, create_entity, update_entity, delete_entity,
}

module _ (entity_path : String → String → String) (show : Value → String) (moment : ℕ → Moment)
    (spec : CrudSpec) (args : Arguments) (s : Store) where
  abbrev path : String
  path = entity_path args.entity_type args.entity_id

  -- What a command that is carried out has done: it ended with 0, it was authorized, only the file of its entity may
  -- differ, and one line was added, whose diff is that of the file as it was and as it is.
  pub record IsCarriedOut (operation : String) (r : Exit × Store) : Type 0 where
    pub ended : r.0 ≡ code 0
    pub authorized : is_authorized spec (str operation) args.actor ≡ some true
    pub others : (p : String) → p ≢ path → lookup p r.1.entities ≡ lookup p s.entities
    pub line : Mutation
    pub logged : r.1.mutations ≡ s.mutations ++ line ∷ []
    pub exact :
        line.change_diff
        ≡ compute_change_diff (lookup path s.entities) (or_empty_dict (lookup path r.1.entities))

  -- Any other end: the files are as they were, and the log has at most one new line.
  pub record IsRefused (r : Exit × Store) : Type 0 where
    pub failed : r.0 ≢ code 0
    pub kept : r.1.entities ≡ s.entities
    pub logged :
        (r.1.mutations ≡ s.mutations) ⊎ ((m : Mutation) × (r.1.mutations ≡ s.mutations ++ m ∷ []))

  abbrev Outcome : String → Exit × Store → Type 0
  Outcome operation r = IsCarriedOut operation r ⊎ IsRefused r

  refused : (x : Exit) → x ≢ code 0 → IsRefused (x, s)
  refused x ne = record { failed = ne; kept = refl; logged = inl refl }

  checked-Outcome :
      (operation : String) (rest : Exit × Store)
      → (is_authorized spec (str operation) args.actor ≡ some true → Outcome operation rest)
      → Outcome operation (checked entity_path show moment spec operation args s rest)
  unfolding checked log_mutation
  checked-Outcome operation rest h = elim (Bool-cases (member args.entity_type spec.entity_types)) [
    | inr a ↦ rw (a, checked) (inr (refused (code 400) (λ e. cc)))
    | inl a ↦ elim (Option-cases (is_authorized spec (str operation) args.actor)) [
      | inl b ↦ rw (a, b, checked) (inr (refused raised (λ e. cc)))
      | inr (true, b) ↦ rw (a, b, checked) (h b)
      | inr (false, b) ↦
          rw (a, b, checked) (inr record { failed = λ e. cc; kept = refl; logged = inr (_, refl) })
    ]
  ]

  write-Outcome :
      (operation : String)
      → is_authorized spec (str operation) args.actor ≡ some true
      → Outcome operation (write entity_path show moment operation args (lookup path s.entities) s)
  unfolding write log_mutation
  write-Outcome operation authorized =
      elim (Option-cases (content_of entity_path show moment args.content)) [
        | inl e ↦ rw (e, write) (inr (refused raised (λ h. cc)))
        | inr (d, e) ↦
            rw (e, write)
              (inl record {
                ended = refl;
                authorized = authorized;
                others = λ p ne. lookup-insert_ne path p _ s.entities (λ h. ne (sym h));
                line = _;
                logged = refl;
                exact = rw (lookup-insert_self path _ s.entities) refl;
              })
      ]

  update-Outcome : Outcome "update" (update_entity entity_path show moment spec args s)
  unfolding update_entity
  update-Outcome = checked-Outcome "update" _ λ authorized.
      elim (Option-cases (lookup path s.entities)) [
        | inl e ↦ rw e (inr (refused (code 404) (λ h. cc)))
        | inr (before, e) ↦ rw e (rw e at (write-Outcome "update" authorized))
      ]

  removed_self : lookup path (remove path s.entities) ≡ none
  removed_self = rw (lookup-remove path path s.entities) (ground (arith, eq_iff path path))

  removed_others : (p : String) → p ≢ path → lookup p (remove path s.entities) ≡ lookup p s.entities
  removed_others p ne = rw (lookup-remove path p s.entities) (ground (arith, eq_iff path p))

  delete-Outcome : Outcome "delete" (delete_entity entity_path show moment spec args s)
  unfolding delete_entity log_mutation
  delete-Outcome = checked-Outcome "delete" _ λ authorized.
      elim (Option-cases (lookup path s.entities)) [
        | inl e ↦ rw e (inr (refused (code 404) (λ h. cc)))
        | inr (before, e) ↦ rw e (
            inl record {
              ended = refl;
              authorized = authorized;
              others = λ p ne. removed_others p ne;
              line = _;
              logged = unfold log_mutation in refl;
              exact = rw (e, removed_self) (unfold log_mutation in refl);
            })
      ]

  -- An update or a deletion is carried out, or it is refused. Carried out, it ends with 0, was
  -- authorized, touches the file of its entity alone, and adds one line to the log, whose diff is
  -- exactly that between the file before and after. Refused, it ends with another code or an
  -- exception, touches no file, and adds at most one line.
  pub change_outcome :
      (IsCarriedOut "update" (update_entity entity_path show moment spec args s)
        ⊎ IsRefused (update_entity entity_path show moment spec args s))
      × (IsCarriedOut "delete" (delete_entity entity_path show moment spec args s)
          ⊎ IsRefused (delete_entity entity_path show moment spec args s))
  change_outcome = (update-Outcome, delete-Outcome)

  abbrev pub created : Fields → Dict String Value
  created fs =
      stamped entity_path show moment (str args.entity_type) (str args.entity_id) (entries fs)

  -- The line that a creation of the document adds to the log.
  abbrev pub creation_line : Fields → Mutation
  creation_line fs = record {
    entity_type = str args.entity_type;
    entity_id = str args.entity_id;
    operation = str "create";
    actor = args.actor;
    change_diff = compute_change_diff none (created fs);
    result = "success";
    moment = moment (length s.mutations);
  }

  not_in_diff :
      (k : String) (d : Dict String Value)
      → get k d ≡ null
      → lookup k (compute_change_diff none d) ≡ none
  not_in_diff k d gone =
      rw (lookup-compute_change_diff k none d, gone) (unfold same_value lookup in refl)

  -- A creation never looks at the file: for an authorized actor, a known type and a dictionary, the
  -- new document takes the place of whatever is there, and a key whose value in the new document is
  -- null or missing is not in the diff of the one line that is logged.
  pub create_overwrites :
      (fs : Fields) (k : String)
      → member args.entity_type spec.entity_types ≡ true
      → is_authorized spec (str "create") args.actor ≡ some true
      → args.content ≡ document (obj fs)
      → get k (created fs) ≡ null
      → (m : Mutation) × ((create_entity entity_path show moment spec args s).0 ≡ code 0)
        × (lookup path (create_entity entity_path show moment spec args s).1.entities
            ≡ some (created fs))
        × ((create_entity entity_path show moment spec args s).1.mutations ≡ s.mutations ++ m ∷ [])
        × (lookup k m.change_diff ≡ none)
  unfolding create_entity checked write log_mutation
  create_overwrites fs k known authorized sent gone = (
    creation_line fs,
    rw (checked, write, known, authorized, sent) refl,
    rw (checked, write, known, authorized, sent) (lookup-insert_self path (created fs) s.entities),
    rw (checked, write, known, authorized, sent) refl,
    not_in_diff k (created fs) gone,
  )
