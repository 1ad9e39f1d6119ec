-- ===== src/Storage/Files.antt =====
-- `PickleProvider.save`, `load` and `clear`. Pickle and the file are not the program's.
use tuned.Base.{◌≡◌, refl, Bool, true, Option, none, some, [], if◌then◌else◌}
use tuned.Storage.{Provider}

-- What `pickle.load` does: it returns, it meets the end of the file, or it raises another error.
pub data Loaded {ℓ} (A : Type ℓ) : Type ℓ where
  loaded : A → Loaded A
  eof : Loaded A
  corrupt : Loaded A

-- `none`: no such file. `writable` and `removable` say whether the system lets the call through.
module _ {ℓ} {V Bytes : Type ℓ} (dump : Provider V → Bytes)
    (load_bytes : Bytes → Loaded (Provider V)) where
  pub save : Bool → Provider V → Option Bytes → Option Bytes
  save writable p file = if writable then some (dump p) else file

  read_bytes : Loaded (Provider V) → Option (Provider V)
  read_bytes (loaded p) = some p
  read_bytes eof = some []
  read_bytes corrupt = none

  -- The data that the provider holds afterwards; `none` is an exception that is not caught.
  pub load : Bool → Option Bytes → Option (Provider V)
  unfolding read_bytes
  load readable none = some []
  load readable (some b) = if readable then read_bytes (load_bytes b) else some []

  pub clear : Bool → Option Bytes → Provider V × Option Bytes
  clear removable file = ([], if removable then none else file)

  -- If pickle reads back what it wrote, what was saved to a file that can be written is loaded
  -- whole, whatever was in the file. After a `clear` that could remove the file, an empty provider
  -- is loaded.
  pub load-save :
      ((p : Provider V) → load_bytes (dump p) ≡ loaded p)
      → (p : Provider V) (file : Option Bytes) (readable : Bool)
      → (load true (save true p file) ≡ some p)
        × (load readable (clear true file).1 ≡ some (clear true file).0)
  unfolding save load clear
  load-save h p file readable = (rw h, refl)
