-- ===== src/CodeTools/Language.antt =====
-- crates/code_tools/src/language.rs: the language of a file, the root of its project, and the lines that are comments. The tables of languages.toml are parameters.
use vim_clap.Common.{Bool, Option, none, some, List, [], ◌∷◌, any, if◌then◌else◌}
use vim_clap.Common.Options.{◌>>=◌}
use vim_clap.Text.{Text, Unicode, codes, text_eq, trim_start, starts_with}

-- A row of the `match`: the extensions of a language.
abbrev pub by_extension : List (List Text × Text)
by_extension =
    (codes "bat" ∷ [], codes "bat")
    ∷ (codes "clj" ∷ codes "cljs" ∷ codes "cljc" ∷ codes "edn" ∷ [], codes "clojure")
    ∷ (codes "coffee" ∷ [], codes "coffeescript")
    ∷ (codes "c" ∷ codes "h" ∷ [], codes "c")
    ∷ (
      codes "cpp"
          ∷ codes "hpp"
          ∷ codes "cxx"
          ∷ codes "hxx"
          ∷ codes "c++"
          ∷ codes "h++"
          ∷ codes "cc"
          ∷ codes "hh"
          ∷ [],
      codes "cpp",
    )
    ∷ (codes "cs" ∷ codes "csx" ∷ [], codes "csharp")
    ∷ (codes "css" ∷ [], codes "css")
    ∷ (codes "d" ∷ codes "di" ∷ codes "dlang" ∷ [], codes "dlang")
    ∷ (codes "diff" ∷ codes "patch" ∷ [], codes "diff")
    ∷ (codes "dart" ∷ [], codes "dart")
    ∷ (codes "dockerfile" ∷ [], codes "dockerfile")
    ∷ (codes "elm" ∷ [], codes "elm")
    ∷ (codes "ex" ∷ codes "exs" ∷ [], codes "elixir")
    ∷ (codes "erl" ∷ codes "hrl" ∷ [], codes "erlang")
    ∷ (codes "fs" ∷ codes "fsi" ∷ codes "fsx" ∷ codes "fsscript" ∷ [], codes "fsharp")
    ∷ (codes "git-commit" ∷ codes "git-rebase" ∷ [], codes "git")
    ∷ (codes "go" ∷ [], codes "go")
    ∷ (codes "groovy" ∷ codes "gvy" ∷ codes "gy" ∷ codes "gsh" ∷ [], codes "groovy")
    ∷ (codes "hbs" ∷ [], codes "handlebars")
    ∷ (codes "htm" ∷ codes "html" ∷ codes "xhtml" ∷ [], codes "html")
    ∷ (codes "ini" ∷ [], codes "ini")
    ∷ (codes "java" ∷ codes "class" ∷ [], codes "java")
    ∷ (codes "js" ∷ [], codes "javascript")
    ∷ (codes "jsx" ∷ [], codes "javascriptreact")
    ∷ (codes "json" ∷ [], codes "json")
    ∷ (codes "jl" ∷ [], codes "julia")
    ∷ (codes "kt" ∷ codes "kts" ∷ [], codes "kotlin")
    ∷ (codes "less" ∷ [], codes "less")
    ∷ (codes "lua" ∷ [], codes "lua")
    ∷ (codes "makefile" ∷ codes "gnumakefile" ∷ [], codes "makefile")
    ∷ (codes "md" ∷ codes "markdown" ∷ [], codes "markdown")
    ∷ (codes "m" ∷ [], codes "objective-c")
    ∷ (codes "mm" ∷ [], codes "objective-cpp")
    ∷ (
      codes "plx"
          ∷ codes "pl"
          ∷ codes "pm"
          ∷ codes "xs"
          ∷ codes "t"
          ∷ codes "pod"
          ∷ codes "cgi"
          ∷ [],
      codes "perl",
    )
    ∷ (
      codes "p6"
          ∷ codes "pm6"
          ∷ codes "pod6"
          ∷ codes "t6"
          ∷ codes "raku"
          ∷ codes "rakumod"
          ∷ codes "rakudoc"
          ∷ codes "rakutest"
          ∷ [],
      codes "perl6",
    )
    ∷ (codes "php" ∷ codes "phtml" ∷ codes "pht" ∷ codes "phps" ∷ [], codes "php")
    ∷ (codes "proto" ∷ [], codes "proto")
    ∷ (
      codes "ps1"
          ∷ codes "ps1xml"
          ∷ codes "psc1"
          ∷ codes "psm1"
          ∷ codes "psd1"
          ∷ codes "pssc"
          ∷ codes "psrc"
          ∷ [],
      codes "powershell",
    )
    ∷ (codes "py" ∷ codes "pyi" ∷ codes "pyc" ∷ codes "pyd" ∷ codes "pyw" ∷ [], codes "python")
    ∷ (codes "r" ∷ [], codes "r")
    ∷ (codes "rb" ∷ [], codes "ruby")
    ∷ (codes "rs" ∷ [], codes "rust")
    ∷ (codes "scss" ∷ codes "sass" ∷ [], codes "scss")
    ∷ (codes "sc" ∷ codes "scala" ∷ [], codes "scala")
    ∷ (codes "sh" ∷ codes "bash" ∷ codes "zsh" ∷ [], codes "shellscript")
    ∷ (codes "sql" ∷ [], codes "sql")
    ∷ (codes "swift" ∷ [], codes "swift")
    ∷ (codes "svelte" ∷ [], codes "svelte")
    ∷ (codes "thrift" ∷ [], codes "thrift")
    ∷ (codes "toml" ∷ [], codes "toml")
    ∷ (codes "ts" ∷ [], codes "typescript")
    ∷ (codes "tsx" ∷ [], codes "typescriptreact")
    ∷ (codes "tex" ∷ [], codes "tex")
    ∷ (codes "vb" ∷ [], codes "vb")
    ∷ (codes "xml" ∷ codes "csproj" ∷ [], codes "xml")
    ∷ (codes "xsl" ∷ [], codes "xsl")
    ∷ (codes "yml" ∷ codes "yaml" ∷ [], codes "yaml")
    ∷ (codes "zig" ∷ [], codes "zig")
    ∷ (codes "vue" ∷ [], codes "vue")
    ∷ []

-- The first row that has the text.
unfoldable pub find_row : Text → List (List Text × Text) → Option Text
find_row ext [] = none
find_row ext ((names, id) ∷ rows) =
    let rest = find_row ext rows in if any (text_eq ext) names then some id else rest

unfoldable pub language_id_by_extension : Unicode → Text → Option Text
unfolding find_row
language_id_by_extension u ext =
    let by_lowercase = find_row (u.to_lowercase ext) by_extension in
    if text_eq ext (codes "C")
    then some (codes "cpp")
    else if text_eq ext (codes "H")
    then some (codes "cpp")
    else if text_eq ext (codes "M")
    then some (codes "objective-c")
    else by_lowercase

abbrev pub by_filename : List (List Text × Text)
by_filename =
    (codes "dockerfile" ∷ [], codes "dockerfile")
    ∷ (codes "makefile" ∷ codes "gnumakefile" ∷ [], codes "makefile")
    ∷ []

-- `Path`: its extension and file name; `to_str` is `none` where they are not UTF-8.
pub record Paths (FilePath OsStr : Type 0) : Type 0 where
  pub extension : FilePath → Option OsStr
  pub file_name : FilePath → Option OsStr
  pub parent : FilePath → Option FilePath
  pub to_str : OsStr → Option Text
  pub find_project_root : FilePath → List Text → Option FilePath

module _ {FilePath OsStr : Type 0} (p : Paths FilePath OsStr) where
  unfoldable pub language_id_from_path : Unicode → FilePath → Option Text
  unfolding language_id_by_extension find_row
  language_id_from_path u path = elim (p.extension path) [
    | some ext ↦ p.to_str ext >>= language_id_by_extension u
    | none ↦
        p.file_name path >>= p.to_str >>= λ filename. find_row (u.to_lowercase filename) by_filename
  ]

  abbrev pub root_markers : List (List Text × List Text)
  root_markers =
      (codes "c" ∷ codes "cpp" ∷ [], codes "compile_commands.json" ∷ [])
      ∷ (
        codes "java" ∷ [],
        codes "pom.xml" ∷ codes "settings.gradle" ∷ codes "settings.gradle.kts" ∷ [],
      )
      ∷ (
        codes "javascript"
            ∷ codes "typescript"
            ∷ codes "javascript.jsx"
            ∷ codes "typescript.tsx"
            ∷ [],
        codes "package.json" ∷ [],
      )
      ∷ (codes "php" ∷ [], codes "composer.json" ∷ [])
      ∷ (
        codes "python" ∷ [],
        codes "setup.py" ∷ codes "Pipfile" ∷ codes "requirements.txt" ∷ codes "pyproject.toml" ∷ [],
      )
      ∷ (codes "rust" ∷ [], codes "Cargo.toml" ∷ [])
      ∷ (codes "scala" ∷ [], codes "build.sbt" ∷ [])
      ∷ (codes "haskell" ∷ [], codes "stack.yaml" ∷ [])
      ∷ (codes "go" ∷ [], codes "go.mod" ∷ [])
      ∷ []

  -- The markers of the first row that has the language; any other language is looked for by the
  -- version control, and at last by the parent.
  unfoldable pub find_root_by : List (List Text × List Text) → Text → FilePath → Option FilePath
  find_root_by [] language_id path =
      elim (p.find_project_root path (codes ".git" ∷ codes ".hg" ∷ codes ".svn" ∷ [])) [
        | some root ↦ some root
        | none ↦ p.parent path
      ]
  find_root_by ((languages, markers) ∷ rows) language_id path =
      let rest = find_root_by rows language_id path in
      if any (text_eq language_id) languages then p.find_project_root path markers else rest

  unfoldable pub find_lsp_root : Text → FilePath → Option FilePath
  unfolding find_root_by
  find_lsp_root language_id path = find_root_by root_markers language_id path

-- `line_comments` of the configuration, by the file extension.
module _ (line_comments : Text → Option (List Text)) where
  unfoldable pub get_line_comments : Text → List Text
  get_line_comments file_extension = elim (line_comments file_extension) [ none ↦ [] | some v ↦ v ]

  unfoldable pub is_comment : Text → Text → Bool
  unfolding get_line_comments trim_start starts_with
  is_comment line file_ext =
      any (λ comment_syntax. starts_with (trim_start line) comment_syntax)
        (get_line_comments file_ext)
