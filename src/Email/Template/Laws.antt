-- ===== src/Email/Template/Laws.antt =====
-- The caches of the template engine do not show in what it renders.
use mathlib.Core.Path.{subst, subst⁻¹}
use mern_auth.Prelude.{
  ℕ, ◌≡◌, refl, sym, ◌∙◌, ap, String, Option, none, some, ◌∷◌, str_eq, Bool-cases, Option-cases,
  inl, inr, eq_iff, arith,
}
use mern_auth.Errors.{Result, ok, err, plain, message}
use mern_auth.Exec.{Exec, Outcome, returned, raised, state_of, lift, try_catch, throw}
use mern_auth.Email.Template.{
  TemplateData, Compiled, Files, Engine, no_templates, cached, first_dir, render,
  resolve_templates_dir, template_path, layout_path, compile_files, compile_template, from_cache,
  failed_text,
}

abbrev pub value_of : {A : Type 0} → Outcome Engine A → Option A
value_of (returned a s) = some a
value_of (raised e s) = none

abbrev of_result : {A : Type 0} → Result A → Option A
of_result (ok a) = some a
of_result (err e) = none

some_same : {A : Type 0} {a b : A} → some a ≡ some b → a ≡ b
some_same h = cc

module _ (files : Files) (year : ℕ) where
  abbrev compiled_from : String → String → Compiled
  compiled_from t l = record { template = files.compile t; layout = files.compile l }

  abbrev both : TemplateData → Result String → Result String → Option String
  both fields (ok t) (ok l) = of_result (render year (compiled_from t l) fields)
  both fields (ok t) (err e) = none
  both fields (err e) l = none

  abbrev in_dir : String → TemplateData → Option String → Option String
  in_dir name fields none = none
  in_dir name fields (some dir) =
      both fields (files.read_file (template_path files year dir name))
        (files.read_file (layout_path files year dir))

  -- Rendering from the files, without any cache.
  abbrev pub fresh : String → TemplateData → Option String
  fresh name fields = in_dir name fields (first_dir files.access files.template_dirs)

  -- The template is what its files in the directory compile to.
  abbrev pub FromFiles : String → Compiled → Type 0
  FromFiles name c =
      (dir t l : String) × (first_dir files.access files.template_dirs ≡ some dir)
      × (files.read_file (template_path files year dir name) ≡ ok t)
      × (files.read_file (layout_path files year dir) ≡ ok l)
      × (c ≡ compiled_from t l)

  -- What is kept is what would be found anew.
  pub record IsValid (s : Engine) : Type 0 where
    pub same_dir :
        (dir : String)
        → s.resolved_templates_dir ≡ some dir
        → first_dir files.access files.template_dirs ≡ some dir
    pub same_files :
        (name : String) (c : Compiled) → cached name s.template_cache ≡ some c → FromFiles name c

  -- The call gives what a rendering from the files gives, and leaves valid caches.
  abbrev pub RendersAs : Option String → Outcome Engine String → Type 0
  RendersAs v o = (value_of o ≡ v) × IsValid (state_of o)

  lift-RendersAs : (r : Result String) (s : Engine) → IsValid s → RendersAs (of_result r) (lift r s)
  lift-RendersAs (ok a) s valid = (refl, valid)
  lift-RendersAs (err e) s valid = (refl, valid)

  hit_cache :
      (name : String) (fields : TemplateData) (s : Engine) (c : Compiled)
      → cached name s.template_cache ≡ some c
      → IsValid s
      → RendersAs (fresh name fields) (compile_template files year name fields s)
  unfolding compile_template
  hit_cache name fields s c hit valid =
      let (dir, t, l, found, read_t, read_l, same) = valid.same_files name c hit in
      let ran : compile_template files year name fields s ≡ lift (render year c fields) s =
        ap (λ o. from_cache files year name fields o s) hit in
      let anew : fresh name fields ≡ of_result (render year c fields) =
        rw (found, read_t, read_l, same) in
      subst⁻¹ (λ o. RendersAs (fresh name fields) o) ran
        (subst⁻¹ (λ v. RendersAs v (lift (render year c fields) s)) anew
          (lift-RendersAs (render year c fields) s valid))

  -- A template that is kept.
  keep-IsValid :
      (name dir t l : String) (s : Engine)
      → first_dir files.access files.template_dirs ≡ some dir
      → files.read_file (template_path files year dir name) ≡ ok t
      → files.read_file (layout_path files year dir) ≡ ok l
      → IsValid s
      → IsValid (record s { template_cache = (name, compiled_from t l) ∷ s.template_cache })
  unfolding cached
  keep-IsValid name dir t l s found read_t read_l valid = record {
    same_dir = valid.same_dir;
    same_files = λ n c hit. elim (Bool-cases (str_eq name n)) [
      | inl this ↦
          let e = (eq_iff name n).0 this in
          let there : some (compiled_from t l) ≡ some c = rw this at hit in
          let read : files.read_file (template_path files year dir n) ≡ ok t =
            subst (λ x. files.read_file (template_path files year dir x) ≡ ok t) e read_t in
          (dir, t, l, found, read, read_l, sym (some_same there))
      | inr other ↦ valid.same_files n c (rw other at hit)
    ];
  }

  caught : (name : String) (fields : TemplateData) (dir : String) → Exec Engine String
  caught name fields dir =
      try_catch (compile_files files year name fields dir)
        (λ e. throw (plain (failed_text files year name (message e))))

  kept : String → String → String → Engine → Engine
  kept name t l s = record s { template_cache = (name, compiled_from t l) ∷ s.template_cache }

  rendered :
      (name dir t l : String) (fields : TemplateData) (s : Engine) (q : Result String)
      → files.read_file (template_path files year dir name) ≡ ok t
      → files.read_file (layout_path files year dir) ≡ ok l
      → render year (compiled_from t l) fields ≡ q
      → IsValid (kept name t l s)
      → RendersAs (of_result q) (caught name fields dir s)
  unfolding caught compile_files kept
  rendered name dir t l fields s (ok a) read_t read_l r valid =
      let ran : caught name fields dir s ≡ returned a (kept name t l s) = ground arith in
      subst⁻¹ (RendersAs (some a)) ran (refl, valid)
  rendered name dir t l fields s (err e) read_t read_l r valid =
      let ran : caught name fields dir s
          ≡ raised (plain (failed_text files year name (message e))) (kept name t l s) =
        ground arith in
      subst⁻¹ (RendersAs none) ran (refl, valid)

  -- Compiling the files of the directory.
  compiled :
      (name dir : String) (fields : TemplateData) (s : Engine) (rt rl : Result String)
      → first_dir files.access files.template_dirs ≡ some dir
      → files.read_file (template_path files year dir name) ≡ rt
      → files.read_file (layout_path files year dir) ≡ rl
      → IsValid s
      → RendersAs (fresh name fields) (caught name fields dir s)
  unfolding caught compile_files kept
  compiled name dir fields s (err e) rl found read_t read_l valid =
      let ran : caught name fields dir s
          ≡ raised (plain (failed_text files year name (message e))) s =
        ground arith in
      subst⁻¹ (RendersAs (fresh name fields)) ran (rw (found, read_t), valid)
  compiled name dir fields s (ok t) (err e) found read_t read_l valid =
      let ran : caught name fields dir s
          ≡ raised (plain (failed_text files year name (message e))) s =
        ground arith in
      subst⁻¹ (RendersAs (fresh name fields)) ran (rw (found, read_t, read_l), valid)
  compiled name dir fields s (ok t) (ok l) found read_t read_l valid =
      let anew : fresh name fields ≡ of_result (render year (compiled_from t l) fields) =
        rw (found, read_t, read_l) in
      subst⁻¹ (λ v. RendersAs v (caught name fields dir s)) anew
        (rendered name dir t l fields s (render year (compiled_from t l) fields) read_t read_l refl
          (keep-IsValid name dir t l s found read_t read_l valid))

  missed :
      (name : String) (fields : TemplateData) (s : Engine) (o : Option String)
      (found : Option String)
      → cached name s.template_cache ≡ none
      → s.resolved_templates_dir ≡ o
      → first_dir files.access files.template_dirs ≡ found
      → IsValid s
      → RendersAs (fresh name fields) (compile_template files year name fields s)
  unfolding compile_template caught resolve_templates_dir
  missed name fields s (some dir) found miss known first valid =
      let ran : compile_template files year name fields s ≡ caught name fields dir s =
        ground arith in
      subst⁻¹ (RendersAs (fresh name fields)) ran
        (compiled name dir fields s _ _ (valid.same_dir dir known) refl refl valid)
  missed name fields s none none miss known first valid =
      let ran : compile_template files year name fields s
          ≡ raised (plain "Could not locate templates directory") s =
        ground arith in
      subst⁻¹ (RendersAs (fresh name fields)) ran (rw first, valid)
  missed name fields s none (some dir) miss known first valid =
      let located = record s { resolved_templates_dir = some dir } in
      let ran : compile_template files year name fields s ≡ caught name fields dir located =
        ground arith in
      subst⁻¹ (RendersAs (fresh name fields)) ran (
        compiled name dir fields located _ _ first refl refl
          (record { same_dir = λ d e. first ∙ e; same_files = valid.same_files }))

  -- With caches that hold what would be found anew, compileTemplate gives exactly what a rendering
  -- from the files without any cache gives, a text or an error, and leaves such caches.
  pub compile_template_lem :
      (name : String) (fields : TemplateData) (s : Engine)
      → IsValid s
      → RendersAs (fresh name fields) (compile_template files year name fields s)
  compile_template_lem name fields s valid = elim (Option-cases (cached name s.template_cache)) [
    | inr (c, hit) ↦ hit_cache name fields s c hit valid
    | inl miss ↦
        missed name fields s s.resolved_templates_dir (first_dir files.access files.template_dirs)
          miss refl refl valid
  ]

  -- The caches of a new module, or after clearTemplateCache, are valid.
  pub no_templates-IsValid : IsValid no_templates
  unfolding cached
  no_templates-IsValid = record {
    same_dir = λ d e. ground arith;
    same_files = λ n c e. ground arith;
  }
