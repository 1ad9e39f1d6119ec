-- ===== src/Tests/Storage.antt =====
-- A provider with the values of one class, and a file that holds it as it is.
use tuned.Base.{String, [], ◌∷◌, string_eq}
use tuned.Storage.{Provider}

abbrev stored : Provider String
stored = ("DiskPlugin", ("DiskPlugin/disk/readahead/sda", "128") ∷ []) ∷ []
