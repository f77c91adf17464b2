-- ===== src/Mstore/Regions.antt =====
-- The shared-memory regions of mstore/backend.py. Descriptors and mappings are numbers of the operating system,
-- which is a parameter.
pub mod Mapped
pub mod Access
use Prim.Native.String.{◌++◌ as str_append}
use npb.Prelude.{ℕ, String, Bool, ◌&&◌, ◌||◌, Option, none, some, str_eq, if◌then◌else◌, ℤ}
use npb.Mstore.Errors.{Result, ok, err, os_error, other_error}
use npb.Mstore.Exec.{Exec, pure, raise, continue, ◌>>=◌, ◌>>◌}
use npb.Mstore.Json.{Json, integer, text, object, end, member}

-- What backend.py calls, on the state of the world: os.name, os.memfd_create, os.ftruncate, os.open of
-- /proc/self/fd/… for reading only, os.dup, os.close, secrets.token_hex(8), and a named mmap with its close.
pub record Kernel (W : Type 0) : Type 0 where
  pub is_windows : Bool
  pub is_posix : Bool
  pub has_memfd : Bool
  pub memfd_create : (name : String) → Exec W ℕ
  pub ftruncate : ℕ → (size : ℤ) → Exec W (Unit {0})
  pub open_read_only : ℕ → Exec W ℕ
  pub dup : ℕ → Exec W ℕ
  pub close : ℕ → Exec W (Unit {0})
  pub token_hex : Exec W String
  pub mmap_named : (size : ℤ) → (name : String) → Exec W ℕ
  pub close_mapping : ℕ → Exec W (Unit {0})

-- A descriptor of -1 is `none`.
pub record LinuxMemfdRegion : Type 0 where
  pub fd : Option ℕ
  pub size : ℤ
  pub name : String

pub record WindowsNamedRegion : Type 0 where
  pub mapping : ℕ
  pub size : ℤ
  pub name : String

pub data Region : Type 0 where
  memfd : LinuxMemfdRegion → Region
  windows_named : WindowsNamedRegion → Region

-- f"mstore-{object_id}"
abbrev pub region_name : String → String
region_name object_id = str_append "mstore-" object_id

-- {"backend": "memfd", "size": size}
abbrev pub memfd_mapping : ℤ → Json
memfd_mapping size = object (member "backend" (text "memfd") (member "size" (integer size) end))

abbrev pub named_mapping : ℤ → (name mode : String) → Json
named_mapping size name mode = object (
    member "backend" (text "windows_named")
      (member "size" (integer size) (member "name" (text name) (member "mode" (text mode) end))))

module _ {W : Type 0} (kernel : Kernel W) where
  -- os.ftruncate, and its handler, which closes the descriptor.
  abbrev pub sized : LinuxMemfdRegion → ℕ → Result (Unit {0}) × W → Result Region × W
  sized region fd (ok done, w) = (ok (memfd region), w)
  sized region fd (err exc, w) =
      continue (kernel.close fd w).0 (λ done. raise exc) (kernel.close fd w).1

  unfoldable pub create_memfd : ℤ → (object_id : String) → Exec W Region
  create_memfd size object_id =
      if kernel.has_memfd
      then (do
        fd ← kernel.memfd_create (region_name object_id)
        (λ w.
            sized (record { fd = some fd; size = size; name = region_name object_id }) fd
              (kernel.ftruncate fd size w)))
      else raise other_error

  unfoldable pub create_named : ℤ → (object_id : String) → Exec W Region
  create_named size object_id = do
    suffix ← kernel.token_hex
    let name = str_append (region_name object_id) (str_append "-" suffix)
    mapping ← kernel.mmap_named size name
    pure (windows_named (record { mapping = mapping; size = size; name = name }))

  unfoldable pub create_region : ℤ → (object_id : String) → Exec W Region
  unfolding create_memfd create_named
  create_region size object_id =
      if kernel.is_windows
      then create_named size object_id
      else if kernel.is_posix && kernel.has_memfd
      then create_memfd size object_id
      else raise other_error

  -- A call on a descriptor, which raises OSError on -1.
  abbrev pub on_fd : {A : Type 0} → (ℕ → Exec W A) → Option ℕ → Exec W A
  on_fd call (some fd) = call fd
  on_fd call none = raise os_error

  unfoldable pub map_memfd : LinuxMemfdRegion → (mode : String) → Exec W (Json × Option ℕ)
  map_memfd region mode =
      if str_eq mode "read"
      then (do
        fd ← on_fd kernel.open_read_only region.fd
        pure (memfd_mapping region.size, some fd))
      else if str_eq mode "write"
      then (do fd ← on_fd kernel.dup region.fd; pure (memfd_mapping region.size, some fd))
      else raise other_error

  unfoldable pub map_named : WindowsNamedRegion → (mode : String) → Exec W (Json × Option ℕ)
  map_named region mode =
      if str_eq mode "read" || str_eq mode "write"
      then pure (named_mapping region.size region.name mode, none)
      else raise other_error

  unfoldable pub client_mapping : Region → (mode : String) → Exec W (Json × Option ℕ)
  unfolding map_memfd map_named
  client_mapping (memfd region) mode = map_memfd region mode
  client_mapping (windows_named region) mode = map_named region mode

  abbrev pub closed_fd : LinuxMemfdRegion → Result (Unit {0}) × W → Result Region × W
  closed_fd region (ok done, w) = (ok (memfd (record region { fd = none })), w)
  closed_fd region (err exc, w) = (err exc, w)

  unfoldable pub close_memfd : LinuxMemfdRegion → Option ℕ → Exec W Region
  close_memfd region none = pure (memfd region)
  close_memfd region (some fd) = λ w. closed_fd region (kernel.close fd w)

  unfoldable pub close : Region → Exec W Region
  unfolding close_memfd
  close (memfd region) = close_memfd region region.fd
  close (windows_named region) = do kernel.close_mapping region.mapping; pure (windows_named region)
