-- ===== src/Config/Links.antt =====
-- internal/config/config.go: the public URLs of a file. url.PathEscape is a parameter.
use thunder_go.Prelude.{[], ◌∷◌, ◌++◌, ◌==◌, if◌then◌else◌}
use thunder_go.Config.{Config}
use thunder_go.Prelude.Text.{Text, codes}

-- strings.ReplaceAll(filename, "/", "_")
pub without_slashes : Text → Text
without_slashes [] = []
without_slashes (c ∷ s) = (if c == b'/' then b'_' else c) ∷ without_slashes s

module _ (path_escape : Text → Text) where
  escape_file_name : Text → Text
  unfolding without_slashes
  escape_file_name name = path_escape (without_slashes name)

  unfoldable pub file_url : Config → Text → Text → Text
  unfolding escape_file_name
  file_url cfg hash name = cfg.base_url ++ (codes "/f/" ++ (hash ++ (b'/' ∷ escape_file_name name)))

  unfoldable pub file_raw_url : Config → Text → Text → Text
  unfolding escape_file_name
  file_raw_url cfg hash name =
      cfg.base_url ++ (codes "/f/" ++ (hash ++ (b'/' ∷ (escape_file_name name ++ codes "/raw"))))
