-- ===== src/Linux/Snapshot.antt =====
-- What the collector reads of the system, as one snapshot: the answers of the file system, `statvfs`
-- and `sysconf`.
use Prim.Native.String.{◌++◌}
use spark_signals.Prelude.{
  ℕ, String, Bool, Option, none, some, List, unwrap_or, Result, ok, err, if◌then◌else◌,
}
use spark_signals.Prelude.Optional.{◌>>=◌, map_some, first}
use spark_signals.Float.{F64}
use spark_signals.Float.Parse.{parse_f64}
use spark_signals.Text.{starts_with}
use spark_signals.Text.Split.{trim, split_whitespace}

-- `io::ErrorKind`, as far as it is looked at
pub data ReadError : Type 0 where
  not_found other : ReadError

pub record Statvfs : Type 0 where
  pub fragment_size : ℕ
  pub blocks : ℕ
  pub blocks_free : ℕ
  pub blocks_available : ℕ
  pub files : ℕ
  pub files_free : ℕ
  pub read_only : Bool

pub record World : Type 0 where
  pub read_to_string : String → Result String ReadError
  -- the names of a directory's entries, as far as they can be read
  pub read_dir : String → Option (List String)
  pub exists : String → Bool
  -- the file name of what a link points to
  pub link_name : String → Option String
  pub statvfs : String → Option Statvfs
  pub sysconf_page_size : Option ℕ

-- `path.join(name)`
abbrev pub join : String → String → String
unfolding starts_with
join path name = if starts_with name "/" then name else path ++ ("/" ++ name)

abbrev pub readable : Result String ReadError → Option String
readable (ok text) = some text
readable (err reason) = none

-- `read_trimmed`
unfoldable pub read_trimmed : World → String → Option String
unfolding trim
read_trimmed world path = map_some trim (readable (world.read_to_string path))

-- `read_first_f64`
unfoldable pub read_first_f64 : World → String → Option F64
unfolding split_whitespace parse_f64
read_first_f64 world path = do
  text ← readable (world.read_to_string path)
  word ← first (split_whitespace text)
  parse_f64 word

-- `page_size`
abbrev pub page_size : World → ℕ
page_size world = unwrap_or world.sysconf_page_size 4096
