-- ===== src/Storage.antt =====
-- tuned/storage/: pickle_provider.py, storage.py and factory.py. A provider keeps options in
-- namespaces and writes them to a file; a storage is a provider with one namespace.
pub mod Laws
pub mod Files
use tuned.Base.{String, Bool, Option, none, some, List, [], ◌∷◌, string_eq, if◌then◌else◌}
use tuned.Base.Dict.{Dict, lookup, insert, erase, has}

-- `PickleProvider._data`, by namespace and option
abbrev pub Provider {ℓ} : Type ℓ → Type ℓ
Provider V = Dict String (Dict String V)

module _ {ℓ} {V : Type ℓ} where
  -- `self._data.setdefault(namespace, {})`
  unfoldable pub set_default : String → Provider V → Provider V
  unfolding lookup insert
  set_default namespace p = elim (lookup namespace p) [ none ↦ insert namespace [] p | some d ↦ p ]

  -- `self._data[namespace]`, where the namespace is there
  unfoldable pub section_of : String → Provider V → Dict String V
  unfolding lookup
  section_of namespace p = elim (lookup namespace p) [ none ↦ [] | some d ↦ d ]

  unfoldable pub set : String → String → V → Provider V → Provider V
  unfolding set_default section_of
  set namespace option value p =
      let q = set_default namespace p in
      insert namespace (insert option value (section_of namespace q)) q

  -- A read creates a missing namespace too.
  unfoldable pub get : String → String → Provider V → Option V × Provider V
  unfolding set_default section_of
  get namespace option p =
      let q = set_default namespace p in (lookup option (section_of namespace q), q)

  unfoldable pub unset : String → String → Provider V → Provider V
  unfolding set_default section_of erase
  unset namespace option p =
      let q = set_default namespace p in
      if has (section_of namespace q) option
      then insert namespace (erase option (section_of namespace q)) q
      else q
