-- ===== src/OsLayer/Mapping.antt =====
-- src/os_layer/memory/src/mmap_handler.cpp: a mapping of a file into memory. What `mmap`, `munmap`
-- and `msync` answer is an argument; `none` is MAP_FAILED, and `false` is -1.
use justice_flow.Base.{
  ℕ, ◌≡◌, refl, Bool, true, false, Option, none, some, ℤ, negsuc, if◌then◌else◌,
}
use justice_flow.Types.{ResultCode, ok, file_system_error, invalid_state}

pub record MmapHandler : Type 0 where
  pub mapped_address : Option ℕ
  pub mapping_size : ℕ
  pub file_descriptor : ℤ
  pub is_mapped : Bool

abbrev pub unmapped : MmapHandler
unmapped = record {
  mapped_address = none;
  mapping_size = 0;
  file_descriptor = negsuc 0;
  is_mapped = false;
}

-- What `mmap` gave, stored; the other fields are set whether it succeeded or not.
unfoldable pub mapped_at : ℤ → ℕ → MmapHandler → Option ℕ → ResultCode × MmapHandler
mapped_at fd size h none = (
  file_system_error,
  record h { mapped_address = none; mapping_size = size; file_descriptor = fd },
)
mapped_at fd size h (some a) = (
  ok,
  record h { mapped_address = some a; mapping_size = size; file_descriptor = fd; is_mapped = true },
)

-- `mmap` is told the descriptor, the size and whether the mapping is shared.
unfoldable pub map_file :
    (ℤ → ℕ → Bool → Option ℕ) → ℤ → ℕ → Bool → MmapHandler → ResultCode × MmapHandler
unfolding mapped_at
map_file mmap fd size is_shared h =
    if h.is_mapped then (invalid_state, h) else mapped_at fd size h (mmap fd size is_shared)

-- `is_mapped` is set and the address is one that `mmap` gave.
abbrev held : Option ℕ → Bool → Option ℕ
held none m = none
held (some a) m = if m then some a else none

unmapped_at : (ℕ → ℕ → Bool) → MmapHandler → Option ℕ → ResultCode × MmapHandler
unmapped_at munmap h none = (invalid_state, h)
unmapped_at munmap h (some a) =
    if munmap a h.mapping_size
    then (ok, record h { mapped_address = none; mapping_size = 0; is_mapped = false })
    else (file_system_error, h)

unfoldable pub unmap : (ℕ → ℕ → Bool) → MmapHandler → ResultCode × MmapHandler
unfolding unmapped_at
unmap munmap h = unmapped_at munmap h (held h.mapped_address h.is_mapped)

synced_at : (ℕ → ℕ → Bool) → ℕ → Option ℕ → ResultCode
synced_at msync size none = invalid_state
synced_at msync size (some a) = if msync a size then ok else file_system_error

unfoldable pub sync : (ℕ → ℕ → Bool) → MmapHandler → ResultCode
unfolding synced_at
sync msync h = synced_at msync h.mapping_size (held h.mapped_address h.is_mapped)

-- `map` and then `unmap`, where `mmap` and `munmap` succeed, leave a handler that is not mapped, with
-- no address and no size, and a `map` that failed leaves it not mapped.
pub map_file-unmap :
    (mmap : ℤ → ℕ → Bool → Option ℕ) (munmap : ℕ → ℕ → Bool) (fd : ℤ) (size a : ℕ) (h : MmapHandler)
    → h.is_mapped ≡ false
    → mmap fd size false ≡ some a
    → munmap a size ≡ true
    → unmap munmap (map_file mmap fd size false h).1 ≡ (
      ok,
      record h { mapped_address = none; mapping_size = 0; file_descriptor = fd; is_mapped = false },
    )
unfolding map_file unmap mapped_at unmapped_at
map_file-unmap mmap munmap fd size a h free gives frees = rw (free, gives, frees) refl
