-- ===== src/Commentcheck/Packages.antt =====
-- The packages that tools/commentcheck calls: unicode, strconv, go/build/constraint, filepath, os and
-- go/ast. os answers for the state of the disk while the command runs.
use herrscher_transport.Prelude.{ℕ, Bool, Option, List}
use herrscher_transport.Commentcheck.Text.{Text}

pub record Packages : Type 0 where
  pub is_space : ℕ → Bool
  pub is_lower : ℕ → Bool
  pub is_upper : ℕ → Bool
  pub is_digit : ℕ → Bool
  -- strconv.Unquote, `none` for its error
  pub unquote : Text → Option Text
  -- constraint.Parse has no error
  pub build_parses : Text → Bool
  -- ast.IsExported
  pub is_exported : Text → Bool
  pub join : Text → Text → Text
  pub base : Text → Text
  pub dir : Text → Text
  pub abs : Text → Option Text
  -- os.Stat has no error
  pub exists : Text → Bool
  -- os.Stat has no error, and finds a directory
  pub is_dir : Text → Bool
  pub read_file : Text → Option Text
  -- filepath.Glob
  pub glob : Text → Option (List Text)
