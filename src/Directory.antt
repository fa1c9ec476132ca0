-- ===== src/Directory.antt =====
-- The TOML files of a directory, as the policies and the hardware profiles read them: the directory
-- is given by what reading it yields.
use Prim.Native.String as Text
use spark_signals.Prelude.{
  String, Bool, false, Option, none, some, List, [], ◌∷◌, Result, ok, err, ◌>>=◌, Ordering,
}
use spark_signals.Order.{text_ord}
use spark_signals.Text.{ends_with}

-- a file of the directory: its name, and its text if it can be read
pub record File : Type 0 where
  pub name : String
  pub text : Option String

-- what `read_dir` yields: each entry, or the error of reading it
abbrev pub Directory : Type 0
Directory = Option (List (Option File))

-- `collect::<io::Result<Vec<_>>>()`
unfoldable pub collect {ℓ} : {E : Type ℓ} → E → List (Option File) → Result (List File) E
collect reason [] = ok []
collect reason (none ∷ entries) = err reason
collect reason (some file ∷ entries) = do files ← collect reason entries; ok (file ∷ files)

-- `paths.sort()`: the paths share their directory, so their names decide
insert_sorted : File → List File → List File
insert_sorted file [] = file ∷ []
insert_sorted file (other ∷ files) = elim (text_ord.cmp file.name other.name) [
  | Ordering.gt ↦ other ∷ insert_sorted file files
  | _ ↦ file ∷ other ∷ files
]

unfoldable pub sort : List File → List File
unfolding insert_sorted
sort [] = []
sort (file ∷ files) = insert_sorted file (sort files)

-- `path.extension() == "toml"`: a dot that begins the name begins no extension
unfoldable pub is_toml : String → Bool
unfolding ends_with
is_toml Text.[] = false
is_toml (Text.◌∷◌ c name) = ends_with name ".toml"
