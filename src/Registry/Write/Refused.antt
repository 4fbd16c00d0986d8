-- ===== src/Registry/Write/Refused.antt =====
-- internal/registry/write.go: what a write of a blueprint leaves, and what it was checked for.
use j_harness.Base.{
  String, true, false, Option, none, some, ◌≡◌, refl, sym, ap, subst, ◌∙◌, ◌⊎◌, inl, inr, ok, err,
  is_empty, if◌then◌else◌, ◌==◌, Bool-cases, Result-cases,
}
use j_harness.Json.{Fields, GoLib}
use j_harness.Model.{AgentBlueprint}
use j_harness.Registry.Blueprint.{validate_blueprint}
use j_harness.Registry.Paths.{safe_rel}
use j_harness.Registry.{Error, prompt_missing, write_failed, bad_prompt_path}
use j_harness.Registry.Load.{compile_output_schema, blueprints_dir, of_path}
use j_harness.Registry.Write.{
  Disk, Written, then_write, done, check_schema, put_prompt, json_path, put_files, write_blueprint,
}

module _ {F W : Type 0} (lib : GoLib F) (disk : Disk F W) where
  open disk use {files, exists, write, print_blueprint}

  abbrev pub read : W → String → Option String
  read w path = (files w).read_file path

  -- `atomicWrite` replaces the file of a path as a whole, or fails and leaves it. A path is taken as
  -- the name of its file.
  pub record DiskLaws : Type 0 where
    pub write-ok :
        (path text : String) (w : W)
        → (write path text w).0 ≡ true
        → (p : String) → read (write path text w).1 p ≡ (if path == p then some text else read w p)
    pub write-err :
        (path text : String) (w : W)
        → (write path text w).0 ≡ false
        → (p : String) → read (write path text w).1 p ≡ read w p

  -- The text at a path once the prompt is put, if one is given
  abbrev pub with_prompt : String → String → W → String → Option String
  with_prompt rel prompt w p =
      if is_empty prompt then read w p else if rel == p then some prompt else read w p

  -- Both files are written, or the blueprint's is not and only the prompt's may have changed.
  abbrev pub IsPut : AgentBlueprint F → String → String → W → Written W → Type 0
  IsPut bp prompt rel w out =
      let path = json_path lib disk blueprints_dir bp.id in
      ((out.0 ≡ none)
        × ((p : String)
            → read out.1 p
              ≡ (if path == p then some (print_blueprint bp) else with_prompt rel prompt w p)))
      ⊎ ((out.0 ≡ some (write_failed path))
          × ((p : String) → read out.1 p ≡ with_prompt rel prompt w p))

  -- Why nothing was written
  abbrev pub IsReason : AgentBlueprint F → String → W → Error → Type 0
  IsReason bp prompt w e =
      (validate_blueprint bp.id bp ≡ err e)
      ⊎ ((is_empty bp.output_schema ≡ false) × (compile_output_schema lib (files w) bp ≡ err e))
      ⊎ (of_path bad_prompt_path (safe_rel bp.prompt_path) ≡ err e)
      ⊎ ((rel : String) × (safe_rel bp.prompt_path ≡ ok rel)
          × (((e ≡ prompt_missing rel) × (is_empty prompt ≡ true) × (exists w rel ≡ false))
              ⊎ ((e ≡ write_failed rel) × ((write rel prompt w).0 ≡ false))))

  abbrev pub IsRefused : AgentBlueprint F → String → W → Written W → Type 0
  IsRefused bp prompt w out =
      (e : Error) × (out.0 ≡ some e)
      × IsReason bp prompt w e
      × ((p : String) → read out.1 p ≡ read w p)

  -- What was checked before anything is written
  abbrev pub Checked : AgentBlueprint F → W → Type 0
  Checked bp w =
      (validate_blueprint bp.id bp ≡ ok tt)
      × ((is_empty bp.output_schema ≡ true)
          ⊎ ((s : Fields F) × (compile_output_schema lib (files w) bp ≡ ok s)))

  abbrev pub Outcome : AgentBlueprint F → String → W → Written W → Type 0
  Outcome bp prompt w out =
      IsRefused bp prompt w out
      ⊎ (Checked bp w
          × ((rel : String) × (safe_rel bp.prompt_path ≡ ok rel) × IsPut bp prompt rel w out))

  -- The blueprint's own file, behind the prompt
  last-IsPut :
      DiskLaws
      → (bp : AgentBlueprint F) (prompt rel : String) (w v : W)
      → ((p : String) → read v p ≡ with_prompt rel prompt w p)
      → let path = json_path lib disk blueprints_dir bp.id in
        IsPut bp prompt rel w (then_write path (write path (print_blueprint bp) v) done)
  last-IsPut laws bp prompt rel w v h =
      let path = json_path lib disk blueprints_dir bp.id in
      let text = print_blueprint bp in
      elim (Bool-cases (write path text v).0) [
        | inl good ↦ rw good (
            inl (
              refl,
              λ p.
                  laws.write-ok path text v good p
                  ∙ ap (λ o. if path == p then some text else o) (h p),
            ))
        | inr bad ↦ rw bad (inr (refl, λ p. laws.write-err path text v bad p ∙ h p))
      ]

  put_prompt-Outcome :
      DiskLaws
      → (bp : AgentBlueprint F) (prompt rel : String) (w : W) → Checked bp w
      → safe_rel bp.prompt_path ≡ ok rel
      → let path = json_path lib disk blueprints_dir bp.id in
        Outcome bp prompt w (
          put_prompt lib disk rel prompt w
            (λ v. then_write path (write path (print_blueprint bp) v) done))
  put_prompt-Outcome laws bp prompt rel w checked safe =
      let path = json_path lib disk blueprints_dir bp.id in
      let rest : W → Written W = λ v. then_write path (write path (print_blueprint bp) v) done in
      let out = put_prompt lib disk rel prompt w rest in
      let put = (write rel prompt w).1 in
      elim (Bool-cases (is_empty prompt)) [
        | inl bare ↦ elim (Bool-cases (exists w rel)) [
          | inl there ↦
              let e : out ≡ rest w = rw (bare, there) refl in
              subst (Outcome bp prompt w) (sym e)
                (inr (checked, (rel, safe, last-IsPut laws bp prompt rel w w (λ p. rw bare refl))))
          | inr absent ↦
              let e : out ≡ (some (prompt_missing rel), w) = rw (bare, absent) refl in
              subst (Outcome bp prompt w) (sym e) (
                inl (
                  prompt_missing rel,
                  refl,
                  inr (inr (inr (rel, safe, inl (refl, bare, absent)))),
                  λ p. refl,
                ))
        ]
        | inr given ↦ elim (Bool-cases (write rel prompt w).0) [
          | inl good ↦
              let e : out ≡ rest put = rw (given, good) refl in
              subst (Outcome bp prompt w) (sym e) (
                inr (
                  checked,
                  (
                    rel,
                    safe,
                    last-IsPut laws bp prompt rel w put
                        (λ p. rw given (laws.write-ok rel prompt w good p)),
                  ),
                ))
          | inr bad ↦
              let e : out ≡ (some (write_failed rel), put) = rw (given, bad) refl in
              subst (Outcome bp prompt w) (sym e) (
                inl (
                  write_failed rel,
                  refl,
                  inr (inr (inr (rel, safe, inr (refl, bad)))),
                  laws.write-err rel prompt w bad,
                ))
        ]
      ]

  put_files-Outcome :
      DiskLaws
      → (bp : AgentBlueprint F) (prompt : String) (w : W) → Checked bp w
      → Outcome bp prompt w (put_files lib disk bp prompt w)
  unfolding put_files
  put_files-Outcome laws bp prompt w checked = elim (Result-cases (safe_rel bp.prompt_path)) [
    | inl (rel, safe) ↦
        subst (Outcome bp prompt w) (rw safe refl)
          (put_prompt-Outcome laws bp prompt rel w checked safe)
    | inr (x, unsafe) ↦
        let out = put_files lib disk bp prompt w in
        let e : out ≡ (some (bad_prompt_path x), w) = rw unsafe refl in
        subst (Outcome bp prompt w) (sym e) (
          inl (
            bad_prompt_path x,
            refl,
            inr (inr (inl (ap (of_path bad_prompt_path) unsafe))),
            λ p. refl,
          ))
  ]

  check_schema-Outcome :
      DiskLaws
      → (bp : AgentBlueprint F) (prompt : String) (w : W) → validate_blueprint bp.id bp ≡ ok tt
      → let put = put_files lib disk bp prompt w in
        Outcome bp prompt w (check_schema lib disk bp w (λ s. put) put)
  unfolding check_schema
  check_schema-Outcome laws bp prompt w valid =
      let put = put_files lib disk bp prompt w in
      let out = check_schema lib disk bp w (λ s. put) put in
      elim (Bool-cases (is_empty bp.output_schema)) [
        | inl bare ↦
            let e : out ≡ put = rw bare refl in
            subst (Outcome bp prompt w) (sym e)
              (put_files-Outcome laws bp prompt w (valid, inl bare))
        | inr full ↦ elim (Result-cases (compile_output_schema lib (files w) bp)) [
          | inl (s, compiled) ↦
              let e : out ≡ put = rw (full, compiled) refl in
              subst (Outcome bp prompt w) (sym e)
                (put_files-Outcome laws bp prompt w (valid, inr (s, compiled)))
          | inr (x, bad) ↦
              let e : out ≡ (some x, w) = rw (full, bad) refl in
              subst (Outcome bp prompt w) (sym e) (inl (x, refl, inr (inl (full, bad)), λ p. refl))
        ]
      ]

  -- Where a single write replaces one file or fails and leaves it, WriteBlueprint ends in one of
  -- two ways. Either it gives an error and each file has its old text, and the error is the one of
  -- the check of the blueprint, of the schema or of the prompt path, or the prompt is missing or
  -- could not be written. Or the blueprint was accepted and its schema, if it names one, compiled,
  -- and either there is no error, the file of the blueprint has its text, the prompt that was given
  -- is at its path, unless that is the same file, and each other file is as before; or the error is
  -- the one of the write of the blueprint, and no file has changed but the one of the prompt, which
  -- has the new text if one was given.
  pub write_blueprint-Outcome :
      DiskLaws
      → (bp : AgentBlueprint F) (prompt : String) (w : W)
      → Outcome bp prompt w (write_blueprint lib disk bp prompt w)
  unfolding write_blueprint
  write_blueprint-Outcome laws bp prompt w =
      let out = write_blueprint lib disk bp prompt w in
      let put = put_files lib disk bp prompt w in
      elim (Result-cases (validate_blueprint bp.id bp)) [
        | inr (x, bad) ↦
            let e : out ≡ (some x, w) = rw bad refl in
            subst (Outcome bp prompt w) (sym e) (inl (x, refl, inl bad, λ p. refl))
        | inl (u, valid) ↦
            let e : out ≡ check_schema lib disk bp w (λ s. put) put = rw valid refl in
            subst (Outcome bp prompt w) (sym e) (check_schema-Outcome laws bp prompt w valid)
      ]
