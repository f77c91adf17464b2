-- ===== src/Tests/Shares.antt =====
-- A region of four bytes whose descriptor is 5, and the server of Tests/Requests.
use npb.Prelude.{ℕ, ◌+◌, ◌*◌, ◌%◌, ◌≡◌, refl, Bool, true, false, some, ◌==◌, ℤ, pos}
use npb.Mstore.Errors.{ok, err, other_error}
use npb.Mstore.Json.{Members, text, integer, member, end}
use npb.Mstore.Permissions.{name}
use npb.Mstore.Client.{System}
use npb.Mstore.Regions.{Kernel, Region, memfd, memfd_mapping, client_mapping, map_memfd}
use npb.Mstore.Regions.Mapped.{Maps, _open_mapping-client_mapping}

abbrev region : Region
region = memfd (record { fd = some 5; size = pos 4; name = "mstore-image" })

-- The world is the next descriptor. Descriptors of dup are odd.
abbrev kernel : Kernel ℕ
kernel = record {
  is_windows = false;
  is_posix = true;
  has_memfd = true;
  memfd_create = λ name w. (ok w, w + 1);
  ftruncate = λ fd size w. (ok tt, w);
  open_read_only = λ fd w. (ok (2 * w), w + 1);
  dup = λ fd w. (ok (2 * w + 1), w + 1);
  close = λ fd w. (ok tt, w);
  token_hex = λ w. (ok "00", w);
  mmap_named = λ size name w. (ok 0, w);
  close_mapping = λ mapping w. (ok tt, w);
}

abbrev system : System ℕ
system = record {
  getpid = λ w. w;
  connect_control = λ endpoint w. (ok 3, w);
  send = λ conn op args w. (ok tt, w);
  recv = λ conn w. (err other_error, w);
  close = λ conn w. w;
  mmap = λ fd size name read_only w. (ok 0, w);
  is_windows = false;
  to_int = elim [ integer z ↦ ok z | _ ↦ err other_error ];
}

to_int_integer : (z : ℤ) → system.to_int (integer z) ≡ ok z
to_int_integer z = refl

_open_mapping-client_mapping_example :
    Maps kernel system "" to_int_integer region "read" (memfd_mapping (pos 4), some 14)
unfolding client_mapping map_memfd
_open_mapping-client_mapping_example =
    _open_mapping-client_mapping kernel system "" to_int_integer region "read" 7 8
      (memfd_mapping (pos 4), some 14) refl refl

abbrev is_odd : ℕ → ℕ → Bool
is_odd w fd = fd % 2 == 1

abbrev write_args : Members
write_args = member "mode" (text "write") end
