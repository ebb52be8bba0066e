-- ===== src/Email/Template.antt =====
-- packages/email/src/template-engine.ts: the directory and the compiled templates that the module
-- keeps. The file system, whose files do not change while the process runs, path.join and
-- Handlebars are parameters; partials, helpers and logging are left out.
pub mod Laws
use Prim.Native.String
use mern_auth.Prelude.{
  ℕ, String, Bool, true, false, Option, none, some, List, [], ◌∷◌, str_eq, if◌then◌else◌,
}
use mern_auth.Errors.{Result, ok, err, plain, message}
use mern_auth.Exec.{Exec, returned, pure, throw, lift, try_catch, ◌>>=◌, ◌>>◌}

pub data TemplateValue : Type 0 where
  text_value : String → TemplateValue
  number_value : ℕ → TemplateValue

-- TemplateData; of two fields of one name, the first counts.
abbrev pub TemplateData : Type 0
TemplateData = List (String × TemplateValue)

-- What Handlebars.compile gives; its errors come when it is called.
abbrev pub Template : Type 0
Template = TemplateData → Result String

pub record Compiled : Type 0 where
  pub template : Template
  pub layout : Template

pub record Files : Type 0 where
  pub template_dirs : List String
  pub access : String → Bool
  pub read_file : String → Result String
  pub join : String → String → String
  pub compile : String → Template

-- resolvedTemplatesDir and templateCache; of two entries of one name, the first counts.
pub record Engine : Type 0 where
  pub resolved_templates_dir : Option String
  pub template_cache : List (String × Compiled)

abbrev pub no_templates : Engine
no_templates = record { resolved_templates_dir = none; template_cache = [] }

unfoldable pub cached : String → List (String × Compiled) → Option Compiled
cached name [] = none
cached name ((key, compiled) ∷ cache) =
    let rest = cached name cache in if str_eq key name then some compiled else rest

-- The first directory that can be accessed.
unfoldable pub first_dir : (String → Bool) → List String → Option String
first_dir access [] = none
first_dir access (dir ∷ dirs) =
    let rest = first_dir access dirs in if access dir then some dir else rest

-- template(data), and the layout around it
unfoldable pub render : ℕ → Compiled → TemplateData → Result String
render year compiled fields = in_layout (compiled.template fields)
  where
    in_layout : Result String → Result String
    in_layout (err e) = err e
    in_layout (ok body) =
        compiled.layout (("body", text_value body) ∷ ("year", number_value year) ∷ fields)

module _ (files : Files) (year : ℕ) where
  abbrev pub locate : Option String → Exec Engine String
  locate none = throw (plain "Could not locate templates directory")
  locate (some dir) = λ s. returned dir (record s { resolved_templates_dir = some dir })

  abbrev pub resolved : Option String → Exec Engine String
  resolved (some dir) = pure dir
  resolved none = locate (first_dir files.access files.template_dirs)

  unfoldable pub resolve_templates_dir : Exec Engine String
  unfolding first_dir
  resolve_templates_dir s = resolved s.resolved_templates_dir s

  abbrev pub template_path : String → String → String
  template_path dir name = files.join dir (String.◌++◌ "emails/" (String.◌++◌ name ".hbs"))

  abbrev pub layout_path : String → String
  layout_path dir = files.join dir "layouts/base.hbs"

  abbrev pub keep : String → Compiled → Exec Engine (Unit {0})
  keep name compiled s =
      returned tt (record s { template_cache = (name, compiled) ∷ s.template_cache })

  -- The try block.
  unfoldable pub compile_files : String → TemplateData → String → Exec Engine String
  unfolding render
  compile_files name fields dir = do
    template_source ← lift (files.read_file (template_path dir name))
    layout_source ← lift (files.read_file (layout_path dir))
    keep name
        (record { template = files.compile template_source; layout = files.compile layout_source })
    lift (
        render year
          (record {
            template = files.compile template_source;
            layout = files.compile layout_source;
          })
          fields)

  abbrev pub failed_text : String → String → String
  failed_text name m =
      String.◌++◌ "Failed to compile template '" (String.◌++◌ name (String.◌++◌ "': " m))

  abbrev pub uncached : String → TemplateData → Exec Engine String
  uncached name fields = resolve_templates_dir >>= λ dir.
      try_catch (compile_files name fields dir) (λ e. throw (plain (failed_text name (message e))))

  abbrev pub from_cache : String → TemplateData → Option Compiled → Exec Engine String
  from_cache name fields (some compiled) = lift (render year compiled fields)
  from_cache name fields none = uncached name fields

  unfoldable pub compile_template : String → TemplateData → Exec Engine String
  unfolding cached render resolve_templates_dir compile_files
  compile_template name fields s = from_cache name fields (cached name s.template_cache) s

unfoldable pub clear_template_cache : Exec Engine (Unit {0})
clear_template_cache s = returned tt no_templates
