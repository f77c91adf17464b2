-- ===== src/Mstore/Regions/Mapped.antt =====
-- That the client of mstore/client.py maps what a region of mstore/backend.py gave it.
use npb.Prelude.{ℕ, String, ◌≡◌, refl, true, false, ◌||◌, Option, none, some, str_eq, ℤ}
use npb.Mstore.Errors.{ok, other_error}
use npb.Mstore.Exec.{Returns, pure-Returns, raise-Returns, if-Returns, then-Returns}
use npb.Mstore.Json.{Json, integer}
use npb.Mstore.Server.{member_of}
use npb.Mstore.Client.{System, State, in_world, finally_close, _open_mapping}
use npb.Mstore.Regions.{
  Kernel, LinuxMemfdRegion, WindowsNamedRegion, Region, memfd, windows_named, memfd_mapping, on_fd,
  client_mapping, map_memfd, map_named,
}

module _ {W V : Type 0} (kernel : Kernel W) (sys : System V) (endpoint : String)
    (to_int_integer : (z : ℤ) → sys.to_int (integer z) ≡ ok z) where
  -- A mapping of the region's size: of the descriptor that came with it, which is closed then, or of the region's
  -- name.
  abbrev pub Maps : Region → (mode : String) → Json × Option ℕ → Type 0
  Maps (memfd region) mode sent =
      (fd : ℕ) × ((sent.1 ≡ some fd)
        × ((c : State V)
            → _open_mapping sys endpoint sent.0 sent.1 mode c
              ≡ finally_close sys endpoint fd
                  (in_world (sys.mmap (some fd) region.size none (str_eq mode "read")) c)))
  Maps (windows_named region) mode sent =
      (c : State V)
      → _open_mapping sys endpoint sent.0 sent.1 mode c
        ≡ in_world (sys.mmap none region.size (some region.name) (str_eq mode "read")) c

  -- The client runs on the system that the region is of.
  abbrev pub FromHere : Region → Type 0
  FromHere (memfd region) = sys.is_windows ≡ false
  FromHere (windows_named region) = (sys.is_windows ≡ true) × (str_eq region.name "" ≡ false)

  sent_memfd :
      (region : LinuxMemfdRegion) (mode : String) (fd : ℕ)
      → Maps (memfd region) mode (memfd_mapping region.size, some fd)
  unfolding _open_mapping member_of
  sent_memfd region mode fd = (fd, (refl, λ c. rw (to_int_integer region.size)))

  map_memfd-Maps :
      (region : LinuxMemfdRegion) (mode : String)
      → Returns (map_memfd kernel region mode) (Maps (memfd region) mode)
  unfolding map_memfd
  map_memfd-Maps region mode =
      if-Returns (str_eq mode "read") _ _
        (then-Returns (on_fd kernel kernel.open_read_only region.fd) _
          λ fd _ _ _. pure-Returns _ (sent_memfd region mode fd))
        (if-Returns (str_eq mode "write") _ _
          (then-Returns (on_fd kernel kernel.dup region.fd) _
            λ fd _ _ _. pure-Returns _ (sent_memfd region mode fd))
          (raise-Returns other_error))

  map_named-Maps :
      (region : WindowsNamedRegion) (mode : String)
      → (sys.is_windows ≡ true) × (str_eq region.name "" ≡ false)
      → Returns (map_named kernel region mode) (Maps (windows_named region) mode)
  unfolding map_named _open_mapping member_of
  map_named-Maps region mode (here, named) =
      if-Returns (str_eq mode "read" || str_eq mode "write") _ _
        (pure-Returns _ λ c. rw (to_int_integer region.size, here, named))
        (raise-Returns other_error)

  -- Where client_mapping of a region returns, the client's _open_mapping of what it sent maps the region's size,
  -- read-only just where the mode is "read": through the descriptor that came with it, which it then closes, or
  -- by the region's name. int of an integer is that integer, and a Windows region has a name.
  pub _open_mapping-client_mapping :
      (region : Region) (mode : String) (w w' : W) (sent : Json × Option ℕ)
      → FromHere region
      → client_mapping kernel region mode w ≡ (ok sent, w')
      → Maps region mode sent
  unfolding client_mapping
  _open_mapping-client_mapping (memfd region) mode w w' sent here e =
      (map_memfd-Maps region mode).returned w w' sent e
  _open_mapping-client_mapping (windows_named region) mode w w' sent here e =
      (map_named-Maps region mode here).returned w w' sent e
